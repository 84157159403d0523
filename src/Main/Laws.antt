-- ===== src/Main/Laws.antt =====
-- What the command line makes of its arguments.
use vmtest.Base.{
  ℕ, ◌<◌, [], ◌∷◌, Option, none, some, Text, text, length, get_or, join, Result, ok, err, context,
  ◌≡◌, ◌≢◌, refl, sym, ap, ◌∙◌, ◌↔◌, arith, All, inl, inr, text_eq,
}
use mathlib.Core.Path.{subst}
use vmtest.Config.{Target, Config}
use vmtest.Paths.{file_name}
use vmtest.Paths.Names.{file_name-ne-nil}
use vmtest.Paths.Parent.{parent_path}
use vmtest.Qemu.Args.{Machine}
use vmtest.Qemu.Invocation.{Sockets, qemu_args}
use vmtest.Vmtest.Instance
use vmtest.Vmtest.Instance.{Vmtest, setup_target}
use vmtest.Vmtest.Instance.Laws.{new-IsValid, setup_target-qemu_args}
use vmtest.Vmtest.Validate.Laws.{IsValid, validate_config-IsValid}
use vmtest.Main.{
  Args, System, kernel_target, kernel_config, from_kernel, from_base, from_file, read_config,
  config_for, config,
}

-- An instance is constructed exactly of a configuration whose targets are all valid.
pub new_of_IsValid :
    (path : Text) (c : Config)
    → All IsValid c.target
    → Instance.new path c ≡ ok (record { base = path; config = c })
new_of_IsValid path c h = unfold Instance.new in rw ((validate_config-IsValid c).1 h) refl

-- Whatever `config` returns was constructed.
record Constructed (v : Vmtest) : Type 0 where
  path : Text
  targets : Config
  constructed : Instance.new path targets ≡ ok v

kernel_target-IsValid :
    (args : Args) (kernel name : Text)
    → file_name kernel ≡ some name
    → join (text " ") args.command ≢ []
    → IsValid (kernel_target args kernel name)
unfolding kernel_target
kernel_target-IsValid args kernel name e c =
    let (named, path) = file_name-ne-nil kernel name e in
    record {
      named = named;
      image_or_kernel = inr (λ n. cc);
      not_both = inl refl;
      uefi_needs_image = λ u. absurd (cc u);
      bios_needs_uefi = λ n. absurd (n refl);
      kargs_need_kernel = λ _ n. cc;
      image_path = tt;
      kernel_path = path;
      has_command = c;
    }

module _ (sys : System) where
  config-Constructed : (args : Args) (v : Vmtest) → config sys args ≡ some (ok v) → Constructed v
  unfolding config
  config-Constructed args v h = by_mode args.kernel h
    where
      by_name :
          (kernel cwd : Text) (name : Option Text)
          → kernel_config args kernel cwd name ≡ some (ok v)
          → Constructed v
      by_name kernel cwd none e = absurd (cc e)
      by_name kernel cwd (some name) e = record {
        path = cwd;
        targets = record { target = kernel_target args kernel name ∷ [] };
        constructed = cc e;
      }

      by_cwd :
          (kernel : Text) (cwd : Result Text)
          → from_kernel args kernel cwd ≡ some (ok v)
          → Constructed v
      by_cwd kernel (err x) e = absurd (cc e)
      by_cwd kernel (ok cwd) e = by_name kernel cwd (file_name kernel) e

      by_base : (c : Config) (base : Option Text) → from_base c base ≡ some (ok v) → Constructed v
      by_base c none e = absurd (cc e)
      by_base c (some base) e = record { path = base; targets = c; constructed = cc e }

      by_file : (path : Text) (c : Result Config) → from_file path c ≡ some (ok v) → Constructed v
      by_file path (err x) e = absurd (cc e)
      by_file path (ok c) e = by_base c (parent_path path) e

      by_mode : (kernel : Option Text) → config_for sys args kernel ≡ some (ok v) → Constructed v
      by_mode (some kernel) e =
          by_cwd kernel (context (text "Failed to get current directory") sys.current_dir) e
      by_mode none e =
          let path = get_or args.config (text "vmtest.toml") in
          by_file path (read_config sys path args.filter) e

  -- Whatever the arguments and the configuration file are: of the instance that `config` returns,
  -- each target in range is valid, also behind the resolution of its paths, and there are QEMU
  -- arguments for it.
  pub config-qemu_args :
      (args : Args) (v : Vmtest) (idx : ℕ)
      → config sys args ≡ some (ok v)
      → idx < length v.config.target
      → (m : Machine) (socks : Sockets) (guest_init : Text)
      → All IsValid v.config.target
        × ((t : Target) × (setup_target v idx ≡ ok t)
            × IsValid t
            × (qemu_args m socks guest_init v.base t ≢ none))
  config-qemu_args args v idx h lt m socks guest_init =
      let c = config-Constructed args v h in
      let (same, valid) = new-IsValid c.path c.targets v c.constructed in
      let kept : v.config.target ≡ c.targets.target = ap (λ u. u.config.target) same in
      let bound : idx < length c.targets.target = omega (arith, lt, ap length kept) in
      (
        subst (All IsValid) (sym kept) valid,
        setup_target-qemu_args c.path c.targets v idx c.constructed bound m socks guest_init,
      )

module _ (sys : System) (args : Args) (kernel : Text) (v : Vmtest) where
  -- What makes `v` the instance for the kernel.
  abbrev pub KernelInstance : Type 0
  KernelInstance =
      (name : Text) × (file_name kernel ≡ some name)
      × (sys.current_dir ≡ ok v.base)
      × (join (text " ") args.command ≢ [])
      × (v.config.target ≡ kernel_target args kernel name ∷ [])

  named-KernelInstance :
      (cwd : Text) (name : Option Text)
      → sys.current_dir ≡ ok cwd
      → file_name kernel ≡ name
      → kernel_config args kernel cwd name ≡ some (ok v)
      → KernelInstance
  named-KernelInstance cwd none d n e = absurd (cc e)
  named-KernelInstance cwd (some name) d n e =
      let made : Instance.new cwd (record { target = kernel_target args kernel name ∷ [] }) ≡ ok v =
        cc e in
      let (same, (valid, _)) = new-IsValid cwd _ v made in
      (
        name,
        n,
        d ∙ ap (λ u. ok u.base) (sym same),
        unfold kernel_target in valid.has_command,
        ap (λ u. u.config.target) same,
      )

  located-KernelInstance :
      (cwd : Result Text)
      → sys.current_dir ≡ cwd
      → from_kernel args kernel (context (text "Failed to get current directory") cwd) ≡ some (ok v)
      → KernelInstance
  located-KernelInstance (err x) d e = absurd (cc e)
  located-KernelInstance (ok cwd) d e = named-KernelInstance cwd (file_name kernel) d refl e

  instance_of_KernelInstance :
      KernelInstance
      → from_kernel args kernel (context (text "Failed to get current directory") sys.current_dir)
        ≡ some (ok v)
  instance_of_KernelInstance (name, n, d, c, t) =
      let made =
        new_of_IsValid v.base (record { target = kernel_target args kernel name ∷ [] })
          (kernel_target-IsValid args kernel name n c, tt) in
      let same = ap (λ ts. record v { config = record { target = ts } }) (sym t) in
      rw (d, n) (ap some (made ∙ ap ok same))

  -- Given a kernel, `config` returns the instance `v` exactly if the current directory is known,
  -- the path of the kernel has a name, the joined words of the command are not empty, and `v` is
  -- based on that directory and has the one target of that name: neither the filter nor a
  -- configuration file plays a part.
  pub config-kernel : args.kernel ≡ some kernel → (config sys args ≡ some (ok v)) ↔ KernelInstance
  unfolding config
  config-kernel given =
      let mode = ap (config_for sys args) given in
      (
        λ e. located-KernelInstance sys.current_dir refl (sym mode ∙ e),
        λ k. mode ∙ instance_of_KernelInstance k,
      )
