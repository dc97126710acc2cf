-- ===== src/Ws/Hub/Pending.antt =====
-- internal/ws/hub/hub.go: the table of pending commands, and the channels that the drain closes.
use database_flashback.Base.{
  ℕ, ◌≡◌, refl, Bool, true, false, ◌||◌, none, some, List, [], ◌∷◌, Bytes, eq_bytes, eq_bytes_sound,
  if◌then◌else◌, arith, ◌==◌, Bool-cases, inl, inr, not, ◌&&◌, ap, sym, ◌∙◌,
}
use database_flashback.Base.Names.{eq_bytes_sym}
use database_flashback.Ws.Hub.{Channel, at, find, forget, register, close_all, close_panics}

find-forget :
    (id k : Bytes) (p : List (Bytes × ℕ))
    → find id (forget k p) ≡ (if eq_bytes k id then none else find id p)
unfolding find forget
find-forget id k [] = ground arith
find-forget id k ((j, i) ∷ p) = elim (Bool-cases (eq_bytes j k)) [
  | inl same ↦ rw (same, eq_bytes_sound j k same) (ground (arith, find-forget id k p))
  | inr differs ↦ rw differs (elim (Bool-cases (eq_bytes j id)) [
    | inl here ↦ ground (arith, here, eq_bytes_sound j id here, differs, eq_bytes_sym k j)
    | inr later ↦ ground (arith, later, find-forget id k p)
  ])
]

pub find-forget_other :
    (id k : Bytes) (p : List (Bytes × ℕ)) → eq_bytes k id ≡ false → find id (forget k p) ≡ find id p
find-forget_other id k p h = ground (arith, find-forget id k p)

pub find-register :
    (id k : Bytes) (i : ℕ) (p : List (Bytes × ℕ))
    → find id (register k i p) ≡ (if eq_bytes k id then some i else find id p)
unfolding find register
find-register id k i p = ground (arith, find-forget id k p)

pub close_all-closed :
    (p : List (Bytes × ℕ)) (chan : ℕ → Channel) (i : ℕ)
    → (chan i).closed ≡ true
    → (close_all p chan i).closed ≡ true
unfolding close_all
close_all-closed [] chan i h = h
close_all-closed ((k, j) ∷ p) chan i h =
    close_all-closed p (at chan j (record (chan j) { closed = true })) i (ground arith)

pub close_all-find :
    (id : Bytes) (p : List (Bytes × ℕ)) (chan : ℕ → Channel) (i : ℕ)
    → find id p ≡ some i
    → (close_all p chan i).closed ≡ true
unfolding close_all find
close_all-find id [] chan i h = cc
close_all-find id ((k, j) ∷ p) chan i h = elim (Bool-cases (eq_bytes k id)) [
  | inl here ↦
      close_all-closed p (at chan j (record (chan j) { closed = true })) i (ground (arith, here))
  | inr later ↦
      close_all-find id p (at chan j (record (chan j) { closed = true })) i (ground (arith, later))
]

pub close_all-buffer :
    (p : List (Bytes × ℕ)) (chan : ℕ → Channel) (i : ℕ)
    → (close_all p chan i).buffer ≡ (chan i).buffer
unfolding close_all
close_all-buffer [] chan i = refl
close_all-buffer ((k, j) ∷ p) chan i =
    ground (arith, close_all-buffer p (at chan j (record (chan j) { closed = true })) i)

-- Whether a channel is in the table.
unfoldable pub has_chan : ℕ → List (Bytes × ℕ) → Bool
has_chan i [] = false
has_chan i ((k, j) ∷ p) = j == i || has_chan i p

-- No channel is in the table twice.
unfoldable pub tidy : List (Bytes × ℕ) → Bool
unfolding has_chan
tidy [] = true
tidy ((k, i) ∷ p) = not (has_chan i p) && tidy p

-- Each channel stands under the id of its call.
unfoldable pub keyed : (ℕ → Bytes) → List (Bytes × ℕ) → Bool
keyed id_of [] = true
keyed id_of ((k, i) ∷ p) = eq_bytes k (id_of i) && keyed id_of p

pub has_chan-forget :
    (i : ℕ) (k : Bytes) (p : List (Bytes × ℕ))
    → has_chan i p ≡ false
    → has_chan i (forget k p) ≡ false
unfolding has_chan forget
has_chan-forget i k [] h = refl
has_chan-forget i k ((j, x) ∷ p) h = ground (arith, has_chan-forget i k p)

pub has_chan-forget_self :
    (id_of : ℕ → Bytes) (i : ℕ) (p : List (Bytes × ℕ))
    → keyed id_of p ≡ true
    → has_chan i (forget (id_of i) p) ≡ false
unfolding has_chan forget keyed
has_chan-forget_self id_of i [] h = refl
has_chan-forget_self id_of i ((k, j) ∷ p) h =
    ground (arith, has_chan-forget_self id_of i p, ap id_of {x = j} {y = i})

pub tidy-forget : (k : Bytes) (p : List (Bytes × ℕ)) → tidy p ≡ true → tidy (forget k p) ≡ true
unfolding tidy forget
tidy-forget k [] h = refl
tidy-forget k ((j, i) ∷ p) h = ground (arith, tidy-forget k p, has_chan-forget i k p)

pub keyed-forget :
    (id_of : ℕ → Bytes) (k : Bytes) (p : List (Bytes × ℕ))
    → keyed id_of p ≡ true
    → keyed id_of (forget k p) ≡ true
unfolding keyed forget
keyed-forget id_of k [] h = refl
keyed-forget id_of k ((j, i) ∷ p) h = ground (arith, keyed-forget id_of k p)

pub has_chan-find :
    (id : Bytes) (i : ℕ) (p : List (Bytes × ℕ)) → find id p ≡ some i → has_chan i p ≡ true
unfolding has_chan find
has_chan-find id i [] h = cc
has_chan-find id i ((k, j) ∷ p) h = ground (arith, has_chan-find id i p)

pub keyed-find :
    (id_of : ℕ → Bytes) (id : Bytes) (i : ℕ) (p : List (Bytes × ℕ))
    → keyed id_of p ≡ true
    → find id p ≡ some i
    → id ≡ id_of i
unfolding keyed find
keyed-find id_of id i [] h e = cc
keyed-find id_of id i ((k, j) ∷ p) h e = elim (Bool-cases (eq_bytes k id)) [
  | inl here ↦
      let same : j ≡ i = ground (arith, here) in
      sym (eq_bytes_sound k id here)
      ∙ (eq_bytes_sound k (id_of j) (ground (arith, h)) ∙ ap id_of same)
  | inr later ↦ keyed-find id_of id i p (ground (arith, h)) (ground (arith, later))
]

-- Closing a table leaves the channels alone that are not in it.
pub close_all_other :
    (p : List (Bytes × ℕ)) (chan : ℕ → Channel) (i : ℕ)
    → has_chan i p ≡ false
    → (close_all p chan i).closed ≡ (chan i).closed
unfolding close_all has_chan
close_all_other [] chan i h = refl
close_all_other ((k, j) ∷ p) chan i h =
    ground (arith, close_all_other p (at chan j (record (chan j) { closed = true })) i)

-- A table without repetition, all of whose channels are open, is closed without a panic.
pub close_panics-tidy :
    (p : List (Bytes × ℕ)) (chan : ℕ → Channel)
    → tidy p ≡ true
    → ((i : ℕ) → has_chan i p ≡ true → (chan i).closed ≡ false)
    → close_panics p chan ≡ false
unfolding close_panics tidy has_chan
close_panics-tidy [] chan h open_all = refl
close_panics-tidy ((k, j) ∷ p) chan h open_all =
    let rest =
      close_panics-tidy p (at chan j (record (chan j) { closed = true })) (ground (arith, h))
        (λ i m. ground (arith, h, m, open_all i)) in
    ground (arith, rest, open_all j)
