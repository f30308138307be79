-- ===== src/Config/Fields.antt =====
-- The settings of a configuration that are texts, and what an override does to them: the field
-- assignments of `apply_single_override` of sv2-core/src/config.rs.
use stratum_v2_tools.Common.{
  ==_iff, Bool, Bool-cases, Option, String, [], arith, false, false≢true, get_or, if◌then◌else◌,
  inl, inr, nat_eq, none, refl, some, string_eq, subst, sym, true, ◌==◌, ◌∙◌, ◌∷◌, ◌≡◌,
}
use stratum_v2_tools.Common.Floats.{Floats}
use stratum_v2_tools.Common.Map.{IsMap, Map, get}
use stratum_v2_tools.Config.Load.{Machine, parse_network, parse_usize, parsed}
use stratum_v2_tools.Config.Overrides.{
  apply_overrides, apply_single_override, override_addr, override_connections, override_difficulty,
  override_mode, override_network, override_node, override_rest,
}
use stratum_v2_tools.Config.Types.{
  BitcoinNetwork, DaemonConfig, NetworkConfig, OperationModeConfig, mode_eq,
}
use stratum_v2_tools.Error.{Foreign, Result, bind-ok, err, ok, ◌>>=◌}

-- The settings that are texts in every mode.
pub data TextField : Type 0 where
  rpc_url_field rpc_user_field rpc_password_field url_field level_field : TextField

abbrev pub field_of : {fl : Floats} → TextField → DaemonConfig fl → String
field_of rpc_url_field c = c.bitcoin.rpc_url
field_of rpc_user_field c = c.bitcoin.rpc_user
field_of rpc_password_field c = c.bitcoin.rpc_password
field_of url_field c = c.database.url
field_of level_field c = c.logging.level

-- The key of a setting among the overrides, and its variable.
abbrev pub key_of : TextField → String
key_of rpc_url_field = "bitcoin.rpc_url"
key_of rpc_user_field = "bitcoin.rpc_user"
key_of rpc_password_field = "bitcoin.rpc_password"
key_of url_field = "database.url"
key_of level_field = "logging.level"

abbrev pub var_of : TextField → String
var_of rpc_url_field = "SV2D_BITCOIN_RPC_URL"
var_of rpc_user_field = "SV2D_BITCOIN_RPC_USER"
var_of rpc_password_field = "SV2D_BITCOIN_RPC_PASSWORD"
var_of url_field = "SV2D_DATABASE_URL"
var_of level_field = "SV2D_LOG_LEVEL"

module _ (F : Foreign) {fl : Floats} (host : Machine fl) where
  -- A result that is a configuration has the value `x` for the setting.
  abbrev pub Has : TextField → String → Result F (DaemonConfig fl) → Type 0
  Has t x (ok d) = field_of t d ≡ x
  Has t x (err e) = Unit

  -- An override of a setting sets it.
  override_hit :
      (t : TextField) (value : String) (c : DaemonConfig fl)
      → Has t value (apply_single_override host (key_of t) value c)
  unfolding apply_single_override override_node override_rest
  override_hit rpc_url_field value c = refl
  override_hit rpc_user_field value c = refl
  override_hit rpc_password_field value c = refl
  override_hit url_field value c = refl
  override_hit level_field value c = refl

  module _ (c : DaemonConfig fl) where
    -- The other settings.
    network_kept :
        (t : TextField) (n : NetworkConfig) → field_of t (record c { network = n }) ≡ field_of t c
    network_kept rpc_url_field n = refl
    network_kept rpc_user_field n = refl
    network_kept rpc_password_field n = refl
    network_kept url_field n = refl
    network_kept level_field n = refl

    kind_kept :
        (t : TextField) (n : BitcoinNetwork)
        → field_of t (record c { bitcoin = record c.bitcoin { network = n } }) ≡ field_of t c
    kind_kept rpc_url_field n = refl
    kind_kept rpc_user_field n = refl
    kind_kept rpc_password_field n = refl
    kind_kept url_field n = refl
    kind_kept level_field n = refl

    mode_kept :
        (t : TextField) (m : OperationModeConfig fl)
        → field_of t (record c { mode = m }) ≡ field_of t c
    mode_kept rpc_url_field m = refl
    mode_kept rpc_user_field m = refl
    mode_kept rpc_password_field m = refl
    mode_kept url_field m = refl
    mode_kept level_field m = refl

    rpc_url_sets :
        (t : TextField) (key value : String)
        → (key == key_of t) ≡ false
        → (key == "bitcoin.rpc_url") ≡ true
        → field_of t (record c { bitcoin = record c.bitcoin { rpc_url = value } }) ≡ field_of t c
    rpc_url_sets rpc_url_field key value n h = absurd (false≢true (sym n ∙ h))
    rpc_url_sets rpc_user_field key value n h = refl
    rpc_url_sets rpc_password_field key value n h = refl
    rpc_url_sets url_field key value n h = refl
    rpc_url_sets level_field key value n h = refl

    rpc_user_sets :
        (t : TextField) (key value : String)
        → (key == key_of t) ≡ false
        → (key == "bitcoin.rpc_user") ≡ true
        → field_of t (record c { bitcoin = record c.bitcoin { rpc_user = value } }) ≡ field_of t c
    rpc_user_sets rpc_url_field key value n h = refl
    rpc_user_sets rpc_user_field key value n h = absurd (false≢true (sym n ∙ h))
    rpc_user_sets rpc_password_field key value n h = refl
    rpc_user_sets url_field key value n h = refl
    rpc_user_sets level_field key value n h = refl

    rpc_password_sets :
        (t : TextField) (key value : String)
        → (key == key_of t) ≡ false
        → (key == "bitcoin.rpc_password") ≡ true
        → field_of t (record c { bitcoin = record c.bitcoin { rpc_password = value } })
          ≡ field_of t c
    rpc_password_sets rpc_url_field key value n h = refl
    rpc_password_sets rpc_user_field key value n h = refl
    rpc_password_sets rpc_password_field key value n h = absurd (false≢true (sym n ∙ h))
    rpc_password_sets url_field key value n h = refl
    rpc_password_sets level_field key value n h = refl

    url_sets :
        (t : TextField) (key value : String)
        → (key == key_of t) ≡ false
        → (key == "database.url") ≡ true
        → field_of t (record c { database = record c.database { url = value } }) ≡ field_of t c
    url_sets rpc_url_field key value n h = refl
    url_sets rpc_user_field key value n h = refl
    url_sets rpc_password_field key value n h = refl
    url_sets url_field key value n h = absurd (false≢true (sym n ∙ h))
    url_sets level_field key value n h = refl

    level_sets :
        (t : TextField) (key value : String)
        → (key == key_of t) ≡ false
        → (key == "logging.level") ≡ true
        → field_of t (record c { logging = record c.logging { level = value } }) ≡ field_of t c
    level_sets rpc_url_field key value n h = refl
    level_sets rpc_user_field key value n h = refl
    level_sets rpc_password_field key value n h = refl
    level_sets url_field key value n h = refl
    level_sets level_field key value n h = absurd (false≢true (sym n ∙ h))

  pub Has-bind :
      {A : Type 0} (t : TextField) (x : String) (r : Result F A) (k : A → DaemonConfig fl)
      → ((a : A) → field_of t (k a) ≡ x)
      → Has t x (r >>= λ a. ok (k a))
  Has-bind t x (ok a) k h = h a
  Has-bind t x (err e) k h = tt

  Has-if :
      (t : TextField) (x : String) (b : Bool) (r s : Result F (DaemonConfig fl))
      → (b ≡ true → Has t x r)
      → Has t x s
      → Has t x (if b then r else s)
  Has-if t x true r s h k = h refl
  Has-if t x false r s h k = k

  -- What `override_node` answers, if it answers.
  abbrev Offers : TextField → String → Option (Result F (DaemonConfig fl)) → Type 0
  Offers t x none = Unit
  Offers t x (some r) = Has t x r

  Offers-if :
      (t : TextField) (x : String) (b : Bool) (r : Result F (DaemonConfig fl))
      (s : Option (Result F (DaemonConfig fl)))
      → (b ≡ true → Has t x r)
      → Offers t x s
      → Offers t x (if b then some r else s)
  Offers-if t x true r s h k = h refl
  Offers-if t x false r s h k = k

  override_node-Offers :
      (t : TextField) (key value : String) (c : DaemonConfig fl)
      → (key == key_of t) ≡ false
      → Offers t (field_of t c) (override_node host key value c)
  unfolding override_node override_addr override_connections override_network
  override_node-Offers t key value c n =
      let x = field_of t c in
      Offers-if t x (key == "network.bind_address") _ _
        (λ _. Has-bind t x (parsed _ (host.parse_addr value)) _ λ a. network_kept c t _)
        (Offers-if t x (key == "network.max_connections") _ _
          (λ _. Has-bind t x (parsed _ (parse_usize value)) _ λ a. network_kept c t _)
          (Offers-if t x (key == "bitcoin.rpc_url") _ _ (rpc_url_sets c t key value n) (
            Offers-if t x (key == "bitcoin.rpc_user") _ _ (rpc_user_sets c t key value n) (
              Offers-if t x (key == "bitcoin.rpc_password") _ _ (rpc_password_sets c t key value n)
                (Offers-if t x (key == "bitcoin.network") _ _
                  (λ _. Has-bind t x (parse_network value) _ λ a. kind_kept c t a) tt)))))

  override_rest-Has :
      (t : TextField) (key value : String) (c : DaemonConfig fl)
      → (key == key_of t) ≡ false
      → Has t (field_of t c) (override_rest host key value c)
  unfolding override_rest override_mode
  override_rest-Has t key value c n =
      let x = field_of t c in
      Has-if t x (key == "database.url") _ _ (url_sets c t key value n) (
        Has-if t x (key == "logging.level") _ _ (level_sets c t key value n) (
          Has-if t x (key == "mode.solo.coinbase_address") _ _ (λ _. mode_kept c t _)
            (Has-if t x (key == "mode.pool.share_difficulty") _ _
              (λ _. Has-bind t x (override_difficulty host value c.mode) _ λ m. mode_kept c t m)
              tt)))

  Has-option :
      (t : TextField) (x : String) (o : Option (Result F (DaemonConfig fl)))
      (rest : Result F (DaemonConfig fl))
      → Offers t x o
      → Has t x rest
      → Has t x (elim o [ some r ↦ r | none ↦ rest ])
  Has-option t x none rest h k = k
  Has-option t x (some r) rest h k = h

  -- Any other override leaves it.
  override_miss :
      (t : TextField) (key value : String) (c : DaemonConfig fl)
      → (key == key_of t) ≡ false
      → Has t (field_of t c) (apply_single_override host key value c)
  unfolding apply_single_override
  override_miss t key value c n =
      Has-option t (field_of t c) (override_node host key value c) _
        (override_node-Offers t key value c n) (override_rest-Has t key value c n)

  pub Has-ok :
      (t : TextField) (x : String) (r : Result F (DaemonConfig fl)) (d : DaemonConfig fl)
      → Has t x r
      → r ≡ ok d
      → field_of t d ≡ x
  Has-ok t x r d h e = subst (Has t x) e h

  pub apply_overrides-field :
      (t : TextField) (os : Map String String) (c d : DaemonConfig fl)
      → IsMap os
      → apply_overrides {F = F} host os c ≡ ok d
      → field_of t d ≡ get_or (get (key_of t) os) (field_of t c)
  unfolding apply_overrides get
  apply_overrides-field t [] c d m h = ground (arith, h)
  apply_overrides-field t ((key, value) ∷ os) c d (fresh, m) h =
      let single_set = apply_single_override host key value c in
      let (e, single, onward) = bind-ok single_set (apply_overrides host os) d h in
      let rest = apply_overrides-field t os e d m onward in
      elim (Bool-cases (key == key_of t)) [
        | inl hit ↦
            let same_key = (==_iff key (key_of t)).0 hit in
            let set =
              subst (λ k. Has t value (apply_single_override host k value c)) (sym same_key)
                (override_hit t value c) in
            let absent = subst (λ k. get k os ≡ none) same_key fresh in
            ground (arith, rest, hit, absent, Has-ok t value single_set e set single)
        | inr miss ↦ ground (
          arith,
          rest,
          miss,
          Has-ok t (field_of t c) single_set e (override_miss t key value c miss) single,
        )
      ]
