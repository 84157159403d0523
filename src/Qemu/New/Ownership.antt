-- ===== src/Qemu/New/Ownership.antt =====
-- Who owns the temporary init script while an instance is built: nobody, where that fails.
use vmtest.Base.{true, false, Text, text, Result, ◌≡◌, refl, ◌∙◌}
use vmtest.Config.{Target}
use vmtest.Host.{
  closed_failure, Host, World, Act, Outcome, done, fail, panic, unfinished, with_context, continue,
  ◌>>=◌, pure, call, ask, context, after_failure, on_failure,
}
use vmtest.Qemu.Args.{Machine}
use vmtest.Qemu.New
use vmtest.Qemu.New.{Formats, own_init, gen_sock, gen_init, fill_init, new_with_init}
use vmtest.Qemu.Run.{drop_init}

module _ {S : Type 0} {A : Type 0} where
  -- What is owned where an action has ended without a value.
  abbrev pub Freed : Outcome A → World S → Type 0
  Freed (done a) w = Unit
  Freed (fail e) w = w.has_init ≡ false
  Freed panic w = w.has_init ≡ false
  Freed unfinished w = Unit

  -- The action leaves no init script behind, whatever was owned before.
  record Frees (m : Act S A) : Type 0 where
    pub at : (w : World S) → Freed (m w).0 (m w).1

  -- So does this one, if none was owned before.
  pub record FreesNew (m : Act S A) : Type 0 where
    pub at : (w : World S) → w.has_init ≡ false → Freed (m w).0 (m w).1

  pub record Keeps (m : Act S A) : Type 0 where
    pub at : (w : World S) → (m w).1.has_init ≡ w.has_init

  Keeps-ask : (op : S → A × S) → Keeps (ask op)
  unfolding ask
  Keeps-ask op = record { at = λ w. refl }

  Keeps-call : (op : S → Result A × S) → Keeps (call op)
  unfolding call
  Keeps-call op = record { at = λ w. refl }

  pub Keeps-pure : (a : A) → Keeps (pure a)
  unfolding pure
  Keeps-pure a = record { at = λ w. refl }

  Keeps-context : (c : Text) (m : Act S A) → Keeps m → Keeps (context c m)
  unfolding context
  Keeps-context c m k = record { at = λ w. k.at w }

  pub FreesNew-of_Keeps : (m : Act S A) → Keeps m → FreesNew m
  FreesNew-of_Keeps m k = record { at = λ w h. ended (m w).0 (m w).1 (k.at w ∙ h) }
    where
      ended : (r : Outcome A) (w : World S) → w.has_init ≡ false → Freed r w
      ended (done a) w h = tt
      ended (fail e) w h = h
      ended panic w h = h
      ended unfinished w h = tt

  Frees-on_failure : (m : Act S A) → Frees (on_failure m drop_init)
  unfolding on_failure drop_init pure
  Frees-on_failure m = record { at = λ w. ended (m w).0 (m w).1 }
    where
      ended :
          (r : Outcome A) (w : World S)
          → Freed (closed_failure r (drop_init w).0) (after_failure r drop_init w)
      ended (done a) w = tt
      ended (fail e) w = refl
      ended panic w = refl
      ended unfinished w = tt

  pub FreesNew-context : (c : Text) (m : Act S A) → FreesNew m → FreesNew (context c m)
  unfolding context
  FreesNew-context c m k = record { at = λ w h. ended (m w).0 (m w).1 (k.at w h) }
    where
      ended : (r : Outcome A) (w : World S) → Freed r w → Freed (with_context c r) w
      ended (done a) w h = h
      ended (fail e) w h = h
      ended panic w h = h
      ended unfinished w h = h

module _ {S : Type 0} {A B : Type 0} where
  Keeps-bind : (m : Act S A) (f : A → Act S B) → Keeps m → ((a : A) → Keeps (f a)) → Keeps (m >>= f)
  unfolding ◌>>=◌
  Keeps-bind m f k l = record { at = λ w. next (m w).0 (m w).1 ∙ k.at w }
    where
      next : (r : Outcome A) (w : World S) → (continue r f w).1.has_init ≡ w.has_init
      next (done a) w = (l a).at w
      next (fail e) w = refl
      next panic w = refl
      next unfinished w = refl

  -- What follows may rely on what was kept.
  pub FreesNew-keep :
      (m : Act S A) (f : A → Act S B) → Keeps m → ((a : A) → FreesNew (f a)) → FreesNew (m >>= f)
  unfolding ◌>>=◌
  FreesNew-keep m f k l = record { at = λ w h. next (m w).0 (m w).1 (k.at w ∙ h) }
    where
      next :
          (r : Outcome A) (w : World S)
          → w.has_init ≡ false
          → Freed (continue r f w).0 (continue r f w).1
      next (done a) w h = (l a).at w h
      next (fail e) w h = h
      next panic w h = h
      next unfinished w h = tt

  FreesNew-bind :
      (m : Act S A) (f : A → Act S B) → FreesNew m → ((a : A) → Frees (f a)) → FreesNew (m >>= f)
  unfolding ◌>>=◌
  FreesNew-bind m f k l = record { at = λ w h. next (m w).0 (m w).1 (k.at w h) }
    where
      next : (r : Outcome A) (w : World S) → Freed r w → Freed (continue r f w).0 (continue r f w).1
      next (done a) w h = (l a).at w
      next (fail e) w h = h
      next panic w h = h
      next unfinished w h = tt

-- The file is owned as soon as it exists.
Frees-own_init : {S A : Type 0} (f : Unit {0} → Act S A) → Frees (f tt) → Frees (own_init >>= f)
unfolding own_init pure ◌>>=◌
Frees-own_init f k = record { at = λ w. k.at (record w { has_init = true }) }

FreesNew-of_Frees : {S A : Type 0} (m : Act S A) → Frees m → FreesNew m
FreesNew-of_Frees m k = record { at = λ w h. k.at w }

module _ (H : Host) (fmt : Formats) where
  gen_sock-Keeps : (prefix : Text) → Keeps (gen_sock H prefix)
  unfolding gen_sock
  gen_sock-Keeps prefix =
      Keeps-bind (ask (H.gen_range 100_000 1_000_000)) _ (Keeps-ask _) (λ id. Keeps-pure _)

  gen_init-FreesNew : (rootfs : Text) → FreesNew (gen_init H fmt rootfs)
  unfolding gen_init
  gen_init-FreesNew rootfs =
      FreesNew-keep _ _ (Keeps-context _ _ (Keeps-call _))
        (λ path. FreesNew-of_Frees _ (Frees-own_init _ (Frees-on_failure (fill_init H fmt path))))

  pub new-FreesNew :
      (m : Machine) (t : Target) (host_shared : Text) → FreesNew (New.new H fmt m t host_shared)
  unfolding New.new
  new-FreesNew m t host_shared = FreesNew-keep _ _ (gen_sock-Keeps (text "qga")) (λ qga.
      FreesNew-keep _ _ (gen_sock-Keeps (text "qmp")) (λ qmp.
        FreesNew-keep _ _ (gen_sock-Keeps (text "cmdout")) (λ command.
          FreesNew-bind _ _ (FreesNew-context _ _ (gen_init-FreesNew t.rootfs))
            (λ guest_init. Frees-on_failure _))))
