-- ===== src/Main/File.antt =====
-- What the command line makes of a configuration file.
use vmtest.Base.{
  List, Option, none, some, Bool, Text, text, filter, get_or, map, Result, ok, err, context,
  context-ok, bind-ok, ◌≡◌, refl, sym, ap, ◌∙◌, ◌↔◌, All,
}
use mathlib.Core.Path.{subst}
use vmtest.Config.{Target, Config}
use vmtest.Config.Load.{TargetTable, load_target, load_config}
use vmtest.Paths.Parent.{parent_path}
use vmtest.Vmtest.Instance.{Vmtest}
use vmtest.Vmtest.Instance.Laws.{new-IsValid}
use vmtest.Vmtest.Validate.Laws.{IsValid}
use vmtest.Main.{
  Args, System, filter_targets, from_base, from_file, read_config, config_for, config,
}
use vmtest.Main.Laws.{new_of_IsValid}

-- The path of the configuration file.
abbrev pub config_path : Args → Text
config_path args = get_or args.config (text "vmtest.toml")

module _ (sys : System) (args : Args) where
  -- What makes the targets those of the configuration file.
  pub record Loaded (ts : List Target) : Type 0 where
    pub contents : Text
    pub is_match : Text → Bool
    pub tables : List TargetTable
    pub read : sys.read_to_string (config_path args) ≡ ok contents
    pub compiled : sys.regex args.filter ≡ ok is_match
    pub parsed : sys.parse_toml contents ≡ ok tables
    pub kept : ts ≡ filter (λ t. is_match t.name) (map (load_target sys.host_arch) tables)

  read_config-Loaded :
      (c : Config) → read_config sys (config_path args) args.filter ≡ ok c → Loaded c.target
  unfolding read_config filter_targets load_config
  read_config-Loaded c h =
      let (contents, r, h₁) =
        bind-ok
          (context (text "Failed to read config file") (sys.read_to_string (config_path args))) _ c
          h in
      let (is_match, m, h₂) =
        bind-ok (context (text "Failed to compile regex") (sys.regex args.filter)) _ c h₁ in
      let (tables, t, h₃) =
        bind-ok (context (text "Failed to parse config") (sys.parse_toml contents)) _ c h₂ in
      record {
        contents = contents;
        is_match = is_match;
        tables = tables;
        read = context-ok _ _ contents r;
        compiled = context-ok _ _ is_match m;
        parsed = context-ok _ _ tables t;
        kept =
            let same : record {
              target = filter (λ t. is_match t.name) (map (load_target sys.host_arch) tables);
            }
                ≡ c =
              cc h₃ in
            ap (λ (d : Config). d.target) (sym same);
      }

  read_config_of_Loaded :
      (c : Config) → Loaded c.target → read_config sys (config_path args) args.filter ≡ ok c
  unfolding read_config filter_targets load_config
  read_config_of_Loaded c l =
      rw (l.read, l.compiled, l.parsed) (ap (λ ts. ok (record { target = ts })) (sym l.kept))

module _ (sys : System) (args : Args) (v : Vmtest) where
  based-Loaded :
      (c : Config) (base : Option Text)
      → parent_path (config_path args) ≡ base
      → Loaded sys args c.target
      → from_base c base ≡ some (ok v)
      → (parent_path (config_path args) ≡ some v.base)
        × All IsValid v.config.target
        × Loaded sys args v.config.target
  based-Loaded c none p l e = absurd (cc e)
  based-Loaded c (some base) p l e =
      let (same, valid) = new-IsValid base c v (cc e) in
      let targets : c.target ≡ v.config.target = ap (λ u. u.config.target) (sym same) in
      (
        p ∙ ap (λ u. some u.base) (sym same),
        subst (All IsValid) targets valid,
        subst (Loaded sys args) targets l,
      )

  file-Loaded :
      (c : Result Config)
      → read_config sys (config_path args) args.filter ≡ c
      → from_file (config_path args) c ≡ some (ok v)
      → (parent_path (config_path args) ≡ some v.base)
        × All IsValid v.config.target
        × Loaded sys args v.config.target
  file-Loaded (err e) r h = absurd (cc h)
  file-Loaded (ok c) r h =
      based-Loaded c (parent_path (config_path args)) refl (read_config-Loaded sys args c r) h

  -- Without a kernel, `config` returns the instance `v` exactly if the configuration file can be
  -- read, the filter is a regular expression and the contents are tables; the targets of `v` are
  -- those of the tables whose names match, in their order, and are all valid; and `v` is based on
  -- the parent of the path of the file.
  pub config-file :
      args.kernel ≡ none
      → (config sys args ≡ some (ok v)) ↔ (
          (parent_path (config_path args) ≡ some v.base)
          × All IsValid v.config.target
          × Loaded sys args v.config.target)
  unfolding config
  config-file given =
      let mode = ap (config_for sys args) given in
      (
        λ e. file-Loaded (read_config sys (config_path args) args.filter) refl (sym mode ∙ e),
        λ (p, valid, l).
            mode
            ∙ ap (from_file (config_path args)) (read_config_of_Loaded sys args v.config l)
            ∙ ap (from_base v.config) p
            ∙ ap some (new_of_IsValid v.base v.config valid),
      )
