-- ===== src/Output/Interleave.antt =====
-- The channel of the updates has several senders: the thread that runs the target, and the two
-- that stream output. What arrives is an interleaving of what they send.
use vmtest.Base.{List, [], ◌∷◌, All}
use vmtest.Output.{Output}

-- `zs` holds what both send, each in its order.
pub data Interleaves : List Output → List Output → List Output → Type 0 where
  nobody : Interleaves [] [] []
  left :
      {x : Output} {xs ys zs : List Output}
      → Interleaves xs ys zs
      → Interleaves (x ∷ xs) ys (x ∷ zs)
  right :
      {y : Output} {xs ys zs : List Output}
      → Interleaves xs ys zs
      → Interleaves xs (y ∷ ys) (y ∷ zs)

pub All-Interleaves :
    (P : Output → Type 0) {xs ys zs : List Output}
    → Interleaves xs ys zs
    → All P xs
    → All P ys
    → All P zs
All-Interleaves P nobody h k = tt
All-Interleaves P (left i) (h, hs) k = (h, All-Interleaves P i hs k)
All-Interleaves P (right i) h (k, ks) = (k, All-Interleaves P i h ks)
