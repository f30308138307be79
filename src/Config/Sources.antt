-- ===== src/Config/Sources.antt =====
-- Where the settings of a loaded configuration come from: `load_from_sources` of
-- sv2-core/src/config.rs takes an override before a variable of the environment, that before the
-- file, and the file before the defaults.
use stratum_v2_tools.Common.{
  Option, String, [], ap, arith, get_or, nat_eq, none, refl, some, string_eq, subst, sym, ◌∙◌, ◌≡◌,
}
use stratum_v2_tools.Common.Floats.{Floats}
use stratum_v2_tools.Common.Map.{IsMap, Map, get}
use stratum_v2_tools.Config.Dependencies.{validate}
use stratum_v2_tools.Config.Fields.{
  Has, Has-bind, Has-ok, TextField, apply_overrides-field, field_of, key_of, level_field,
  rpc_password_field, rpc_url_field, rpc_user_field, url_field, var_of,
}
use stratum_v2_tools.Config.Load.{
  Machine, merge_bitcoin, merge_env, merge_mode, merge_network, parse_network, with_var,
}
use stratum_v2_tools.Config.Overrides.{apply_overrides, from_path, load_from_sources}
use stratum_v2_tools.Config.Types.{
  BitcoinConfig, DaemonConfig, NetworkConfig, OperationModeConfig, mode_eq,
}
use stratum_v2_tools.Error.{Foreign, Result, bind-ok, err, ok, ok-injective, ◌>>=◌}

module _ (F : Foreign) {fl : Floats} (host : Machine fl) where
  Has-then :
      {A : Type 0} (t : TextField) (x : String) (r : Result F A)
      (k : A → Result F (DaemonConfig fl))
      → ((a : A) → r ≡ ok a → Has F host t x (k a))
      → Has F host t x (r >>= k)
  Has-then t x (ok a) k h = h a refl
  Has-then t x (err e) k h = tt

  merge_bitcoin-fields :
      (c b : BitcoinConfig)
      → merge_bitcoin {F = F} host c ≡ ok b
      → (b.rpc_url ≡ get_or (host.var "SV2D_BITCOIN_RPC_URL") c.rpc_url)
        × (b.rpc_user ≡ get_or (host.var "SV2D_BITCOIN_RPC_USER") c.rpc_user)
        × (b.rpc_password ≡ get_or (host.var "SV2D_BITCOIN_RPC_PASSWORD") c.rpc_password)
  unfolding merge_bitcoin
  merge_bitcoin-fields c b h =
      let (net, found, e) =
        bind-ok (with_var (host.var "SV2D_BITCOIN_NETWORK") c.network parse_network) _ b h in
      ground (arith, e)

  merged-field :
      (t : TextField) (c : DaemonConfig fl) (n : NetworkConfig) (b : BitcoinConfig)
      (m : OperationModeConfig fl)
      → merge_bitcoin {F = F} host c.bitcoin ≡ ok b
      → field_of t (record c {
        network = n;
        bitcoin = b;
        database = record c.database { url = get_or (host.var "SV2D_DATABASE_URL") c.database.url };
        logging = record c.logging { level = get_or (host.var "SV2D_LOG_LEVEL") c.logging.level };
        mode = m;
      })
        ≡ get_or (host.var (var_of t)) (field_of t c)
  merged-field rpc_url_field c n b m e = (merge_bitcoin-fields c.bitcoin b e).0
  merged-field rpc_user_field c n b m e = (merge_bitcoin-fields c.bitcoin b e).1
  merged-field rpc_password_field c n b m e = (merge_bitcoin-fields c.bitcoin b e).2
  merged-field url_field c n b m e = refl
  merged-field level_field c n b m e = refl

  merge_env-Has :
      (t : TextField) (c : DaemonConfig fl)
      → Has F host t (get_or (host.var (var_of t)) (field_of t c)) (merge_env host c)
  unfolding merge_env
  merge_env-Has t c =
      let x = get_or (host.var (var_of t)) (field_of t c) in
      Has-then t x (merge_network host c.network) _ λ n _.
        Has-then t x (merge_bitcoin host c.bitcoin) _
          λ b e. Has-bind F host t x (merge_mode host c.mode) _ λ m. merged-field t c n b m e

  overridden :
      (t : TextField) (os : Option (Map String String)) (c d : DaemonConfig fl)
      → IsMap (get_or os [])
      → elim os [ some o ↦ apply_overrides {F = F} host o c | none ↦ ok c ] ≡ ok d
      → field_of t d ≡ get_or (get (key_of t) (get_or os [])) (field_of t c)
  unfolding get
  overridden t none c d m h = ground (arith, h)
  overridden t (some o) c d m h = apply_overrides-field F host t o c d m h

  -- A configuration that is loaded passes validation, and the address and the credentials of the
  -- node, the address of the database and the level of the log are each taken from the overrides if
  -- they name it, else from its variable if that is set, else from the file or the defaults.
  pub load_from_sources-field :
      (t : TextField) (path : Option String) (os : Option (Map String String))
      (base d : DaemonConfig fl)
      → IsMap (get_or os [])
      → from_path {F = F} host path ≡ ok base
      → load_from_sources {F = F} host path os ≡ ok d
      → (validate {F = F} host.paths d ≡ ok tt)
        × (field_of t d
            ≡ get_or
                (get (key_of t) (get_or os []))
                (get_or (host.var (var_of t)) (field_of t base)))
  unfolding load_from_sources
  load_from_sources-field t path os base d m b h =
      let (c, from, after_file) = bind-ok (from_path host path) _ d h in
      let (e, merged, after_env) = bind-ok (merge_env host c) _ d after_file in
      let (o, changed, after_all) =
        bind-ok (elim os [ some o ↦ apply_overrides host o e | none ↦ ok e ]) _ d after_env in
      let (u, valid, same) = bind-ok (validate host.paths o) _ d after_all in
      let base_path = ok-injective c base (sym from ∙ b) in
      let result = ok-injective o d same in
      (
        subst (λ x. validate {F = F} host.paths x ≡ ok tt) result valid,
        ap (field_of t) (sym result)
            ∙ overridden t os e o m changed
            ∙ ap (get_or (get (key_of t) (get_or os []))) (
                Has-ok F host t _ (merge_env host c) e (merge_env-Has t c) merged
                ∙ ap (λ x. get_or (host.var (var_of t)) (field_of t x)) base_path),
      )
