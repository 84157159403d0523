-- ===== src/Guest/Mount/Retry.antt =====
-- The loop of `mount_in_guest` of src/qemu.rs that tries to mount.
use vmtest.Base.{
  ℕ, zero, suc, ◌+◌, ◌*◌, ◌<◌, List, [], ◌∷◌, true, false, Bool, Text, text, ◌==◌, ◌≡◌, ◌≢◌, refl,
  ◌∙◌, arith,
}
use mathlib.Core.Path.{subst}
use vmtest.Base.Integers.{ℤ, pos, ℤ_eq, ℤ_beq_iff}
use vmtest.Host.Inversion.{bind-done, bind-inv}
use vmtest.Host.{Host, World, done, Act, ◌>>=◌, ◌>>◌, branch, pure, throw, ask}
use vmtest.Qga.Version.{Version}
use vmtest.Guest.Mount.{require_zero, run_setup, mount_loop}

-- A branch on an exit code.
branch-zero :
    {S : Type 0} (message : Text) (b : Bool) (w end : World S)
    → branch b (pure tt) (throw (message ∷ [])) w ≡ (done tt, end)
    → (b ≡ true) × (w ≡ end)
unfolding branch pure throw
branch-zero message true w end e = (refl, cc e)
branch-zero message false w end e = absurd (cc e)

pub require_zero-inv :
    {S : Type 0} (message : Text) (rc : ℤ) (w end : World S)
    → require_zero message rc w ≡ (done tt, end)
    → (rc ≡ pos 0) × (w ≡ end)
unfolding require_zero
require_zero-inv message rc w end e =
    let (is_zero, same) = branch-zero _ (rc == pos 0) w end e in
    ((ℤ_beq_iff rc (pos 0)).0 is_zero, same)

pub require_zero-done :
    {S : Type 0} (message : Text) (rc : ℤ) (w : World S)
    → rc ≡ pos 0
    → require_zero message rc w ≡ (done tt, w)
unfolding require_zero branch pure
require_zero-done message rc w e = rw e refl

module _ (H : Host) (fuel : ℕ) (version : Version) where
  -- The command runs in the guest, and exits with the code.
  abbrev pub Gives : Text → List Text → World H.State → ℤ → World H.State → Type 0
  Gives cmd args w rc w' = run_setup H fuel version cmd args w ≡ (done rc, w')

  -- So many times in a row, mount(1) exits with 32, its code for a failed mount, and each time
  -- there is a pause: the first one of so many seconds, each further one a second longer.
  pub data Busy (args : List Text) : ℕ → ℕ → World H.State → World H.State → Type 0 where
    ready : {i : ℕ} {w : World H.State} → Busy args 0 i w w
    busy :
        {n i : ℕ} {w w' end : World H.State}
        → Gives (text "mount") args w (pos 32) w'
        → Busy args n (i + 1) (record w' { host = H.sleep (i * 1000) w'.host }) end
        → Busy args (suc n) i w end

  -- At most so many tries, of which the last one mounts.
  unfoldable pub Mounts : ℕ → ℕ → List Text → World H.State → World H.State → Type 0
  Mounts left i args w end =
      (n : ℕ) × (w' : World H.State) × (n < left)
      × Busy args n i w w'
      × Gives (text "mount") args w' (pos 0) end

  abbrev paused : ℕ → World H.State → World H.State
  paused i w = record w { host = H.sleep (i * 1000) w.host }

  -- A try that is not the last one.
  Mounts-busy :
      (left i : ℕ) (args : List Text) (w w' end : World H.State)
      → Gives (text "mount") args w (pos 32) w'
      → Mounts left (i + 1) args (paused i w') end
      → Mounts (suc left) i args w end
  unfolding Mounts
  Mounts-busy left i args w w' end x (n, w'', lt, b, e) =
      (suc n, w'', omega (arith, lt), busy x b, e)

  -- What follows a try.
  abbrev next : ℕ → ℕ → List Text → ℤ → Act H.State ℤ
  next left i args rc =
      branch (rc == pos 32)
        (do ask (λ s. (tt, H.sleep (i * 1000) s)); mount_loop H fuel version left (i + 1) args rc)
        (pure rc)

  abbrev mount : List Text → Act H.State ℤ
  mount args = run_setup H fuel version (text "mount") args

  -- A round, whose exit code is compared with 32.
  round :
      (left i : ℕ) (args : List Text) (w w' end : World H.State) (rc : ℤ) (b : Bool)
      → Gives (text "mount") args w rc w'
      → (rc ≡ pos 32
          → mount_loop H fuel version left (i + 1) args rc (paused i w') ≡ (done (pos 0), end)
          → Mounts left (i + 1) args (paused i w') end)
      → (rc == pos 32) ≡ b
      → branch b
          (do ask (λ s. (tt, H.sleep (i * 1000) s)); mount_loop H fuel version left (i + 1) args rc)
          (pure rc)
          w'
        ≡ (done (pos 0), end)
      → Mounts (suc left) i args w end
  unfolding branch pure ◌>>=◌ ask Mounts
  round left i args w w' end rc true x again is_32 e =
      let same = (ℤ_beq_iff rc (pos 32)).0 is_32 in
      Mounts-busy left i args w w' end (subst (λ c. Gives (text "mount") args w c w') same x)
        (again same e)
  round left i args w w' end rc false x again ne e =
      let (is_zero, same) : (rc ≡ pos 0) × (w' ≡ end) = (cc e, cc e) in
      (0, w, omega arith, ready, cc (x, is_zero, same))

  pub mount_loop-Mounts :
      (left i : ℕ) (args : List Text) (rc : ℤ) (w end : World H.State)
      → (left ≡ 0 → rc ≢ pos 0)
      → mount_loop H fuel version left i args rc w ≡ (done (pos 0), end)
      → Mounts left i args w end
  unfolding mount_loop pure
  mount_loop-Mounts zero i args rc w end ne e = absurd (ne refl (cc e))
  mount_loop-Mounts (suc left) i args rc w end ne e =
      let (rc', w', exits, rest) = bind-inv _ _ w (pos 0) end e in
      round left i args w w' end rc' (rc' == pos 32) exits
        (λ same h.
          mount_loop-Mounts left (i + 1) args rc' (paused i w') end
            (λ _ is_zero. absurd (cc (same, is_zero))) h)
        refl rest

  pub mount_loop_of_Mounts :
      (left i n : ℕ) (args : List Text) (rc : ℤ) (w w' end : World H.State)
      → n < left
      → Busy args n i w w'
      → Gives (text "mount") args w' (pos 0) end
      → mount_loop H fuel version left i args rc w ≡ (done (pos 0), end)
  unfolding mount_loop ◌>>=◌ ask branch pure
  mount_loop_of_Mounts zero i n args rc w w' end lt b e = absurd (omega (arith, lt))
  mount_loop_of_Mounts (suc left) i zero args rc w w' end lt ready e =
      bind-done (mount args) (next left i args) w (pos 0) end e
  mount_loop_of_Mounts (suc left) i (suc n) args rc w w' end lt (busy {w' = w''} x b) e =
      bind-done (mount args) (next left i args) w (pos 32) w'' x
      ∙ mount_loop_of_Mounts left (i + 1) n args (pos 32) _ w' end (omega (arith, lt)) b e
