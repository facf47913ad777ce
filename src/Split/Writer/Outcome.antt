-- ===== src/Split/Writer/Outcome.antt =====
-- crates/xfer-http/src/split.rs: what holds after any messages to the thread.
use xfer_rust.Common.{
  ℕ, zero, suc, ◌≤◌, ◌<◌, ◌≡◌, refl, arith, true, false, Option, some, List, [], ◌∷◌, take,
  get_elem?, All,
}
use xfer_rust.Common.Bytes.{Bytes}
use xfer_rust.Split.Writer.{DataFile, Writer, set_fatal, split_off, put_bytes}
use xfer_rust.Split.Writer.Dispatch.{release_seg}
use xfer_rust.Split.Writer.Messages.{
  ToWriter, write_data, next, fatal_error, save_ctrl, adaptive_action, worker_joined, writer_loop,
}
use xfer_rust.Split.Writer.Steps.{
  Step, Reach-keeps, tune, cut, seal, skip, pop, grab, give_back, store, fail,
}
use xfer_rust.Split.Writer.Sound.{IsSound}
use xfer_rust.Split.Writer.Invariant.{Reach-IsSound}
use xfer_rust.Split.Writer.Replies.{IsAllowed, writer_loop-Reach}
use xfer_rust.Split.Writer.Kept.{IsKept, Reach-IsKept}
use xfer_rust.Split.Writer.Content.{IsDataFile, AreOf, HasContent, Reach-HasContent, full-holds}

abbrev Anything : ℕ → Bytes → Type 0
Anything offset bytes = Unit

-- The bytes that a message brings are those of the resource.
abbrev pub BringsOf : (ℕ → ℕ) → ToWriter → Type 0
BringsOf resource (write_data sid offset bytes) = AreOf resource offset bytes
BringsOf resource _ = Unit

get_elem?-take :
    (n : ℕ) (xs : Bytes) (i b : ℕ) → get_elem? (take n xs) i ≡ some b → get_elem? xs i ≡ some b
get_elem?-take zero xs i b at = absurd (cc at)
get_elem?-take (suc n) [] i b at = absurd (cc at)
get_elem?-take (suc n) (x ∷ xs) zero b at = at
get_elem?-take (suc n) (x ∷ xs) (suc i) b at = get_elem?-take n xs i b at

brings-IsAllowed :
    (resource : ℕ → ℕ) (m : ToWriter) → BringsOf resource m → IsAllowed (AreOf resource) m
brings-IsAllowed resource (write_data sid offset bytes) h =
    λ n i b at. h i b (get_elem?-take n bytes i b at)
brings-IsAllowed resource (next held failures) h = tt
brings-IsAllowed resource fatal_error h = tt
brings-IsAllowed resource save_ctrl h = tt
brings-IsAllowed resource (adaptive_action action) h = tt
brings-IsAllowed resource worker_joined h = tt

all-IsAllowed : (messages : List (ℕ × ToWriter)) → All (λ m. IsAllowed Anything m.1) messages
all-IsAllowed [] = tt
all-IsAllowed ((now, write_data sid offset bytes) ∷ rest) = (λ n. tt, all-IsAllowed rest)
all-IsAllowed ((now, next held failures) ∷ rest) = (tt, all-IsAllowed rest)
all-IsAllowed ((now, fatal_error) ∷ rest) = (tt, all-IsAllowed rest)
all-IsAllowed ((now, save_ctrl) ∷ rest) = (tt, all-IsAllowed rest)
all-IsAllowed ((now, adaptive_action action) ∷ rest) = (tt, all-IsAllowed rest)
all-IsAllowed ((now, worker_joined) ∷ rest) = (tt, all-IsAllowed rest)

all_brought :
    (resource : ℕ → ℕ) (messages : List (ℕ × ToWriter))
    → All (λ m. BringsOf resource m.1) messages
    → All (λ m. IsAllowed (AreOf resource) m.1) messages
all_brought resource [] h = tt
all_brought resource (m ∷ rest) h =
    (brings-IsAllowed resource m.1 h.0, all_brought resource rest h.1)

module _ {D : Type 0} (f : DataFile D) where
  abbrev IsSameFile : Writer D → Writer D → Type 0
  IsSameFile w v = (v.base ≡ w.base) × (v.total ≡ w.total)

  Step-IsSameFile :
      (Allowed : ℕ → Bytes → Type 0) (w u v : Writer D)
      → Step f Allowed u v
      → IsSameFile w u
      → IsSameFile w v
  unfolding split_off put_bytes set_fatal release_seg
  Step-IsSameFile A x u v (tune w alive desired last) h = h
  Step-IsSameFile A x u v (cut w now sid s at there low high) h = h
  Step-IsSameFile A x u v (seal w sid s done now at why) h = h
  Step-IsSameFile A x u v (skip w sid queue e gone) h = h
  Step-IsSameFile A x u v (pop w now sid queue s e at) h = h
  Step-IsSameFile A x u v (grab w now sid s at) h = h
  Step-IsSameFile A x u v (give_back w sid s at) h = ground arith
  Step-IsSameFile A x u v (store w now sid s offset n bytes ok at mark len pos room of wrote) h = h
  Step-IsSameFile A x u v (fail w disk) h = h

  -- Whatever messages come, in whatever order: the segments still cover the same bytes once each, `todo` is what
  -- they lack, and the download is finished where they lack nothing.
  pub writer_loop-IsSound :
      (messages : List (ℕ × ToWriter)) (w : Writer D)
      → IsSound D w
      → IsSound D (writer_loop f messages w) × IsSameFile w (writer_loop f messages w)
  writer_loop-IsSound messages w h =
      let r = writer_loop-Reach f Anything messages w (all-IsAllowed messages) h in
      (
        Reach-IsSound f Anything r h,
        Reach-keeps f Anything (IsSameFile w) (Step-IsSameFile Anything w) r (refl, refl),
      )

  pub writer_loop-IsKept :
      (messages : List (ℕ × ToWriter)) (w : Writer D)
      → IsSound D w
      → IsKept D w
      → IsKept D (writer_loop f messages w)
  writer_loop-IsKept messages w h k =
      Reach-IsKept f Anything (writer_loop-Reach f Anything messages w (all-IsAllowed messages) h) k

  pub writer_loop-HasContent :
      (stored : D → ℕ → Option ℕ) (resource : ℕ → ℕ) (messages : List (ℕ × ToWriter)) (w : Writer D)
      → IsDataFile D f stored
      → IsSound D w
      → HasContent f stored resource w
      → All (λ m. BringsOf resource m.1) messages
      → HasContent f stored resource (writer_loop f messages w)
  writer_loop-HasContent stored resource messages w law h content brought =
      Reach-HasContent f stored resource law
        (writer_loop-Reach f (AreOf resource) messages w (all_brought resource messages brought) h)
        content

  pub writer_loop_complete :
      (stored : D → ℕ → Option ℕ) (resource : ℕ → ℕ) (messages : List (ℕ × ToWriter)) (w : Writer D)
      → IsDataFile D f stored
      → IsSound D w
      → HasContent f stored resource w
      → All (λ m. BringsOf resource m.1) messages
      → (writer_loop f messages w).finished ≡ true
      → (writer_loop f messages w).fatal ≡ false
      → (x : ℕ) → w.base ≤ x
      → x < w.total
      → stored (writer_loop f messages w).disk x ≡ some (resource x)
  writer_loop_complete stored resource messages w law h content brought finished ok x low high =
      let v = writer_loop f messages w in
      let (sound, file) = writer_loop-IsSound messages w h in
      full-holds f stored resource v sound
        (writer_loop-HasContent stored resource messages w law h content brought)
        (sound.over finished) ok x (omega arith) (omega arith)
