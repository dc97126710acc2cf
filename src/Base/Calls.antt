-- ===== src/Base/Calls.antt =====
-- What a Go call can end in.

-- The kinds of error that the modelled functions tell apart.
pub data Error : Type 0 where
  unexpected_eof invalid_length no_image no_columns unsupported : Error

-- `panic` is a run-time panic, which ends the process. `stuck` is no Go value: a loop of the model
-- ran out of fuel.
pub data Result {ℓ} (A : Type ℓ) : Type ℓ where
  panic stuck : Result A
  err : Error → Result A
  ok : A → Result A

-- `if err != nil { return …, err }` before what follows.
infixl 5 ◌>>=◌
abbrev pub ◌>>=◌ {ℓ κ} : {A : Type ℓ} {B : Type κ} → Result A → (A → Result B) → Result B
panic >>= next = panic
stuck >>= next = stuck
err e >>= next = err e
ok a >>= next = next a

-- What holds of the value, if there is one.
abbrev pub OkThen {ℓ κ} : {A : Type ℓ} → (A → Type κ) → Result A → Type κ
OkThen P (ok a) = P a
OkThen P (err e) = Unit
OkThen P panic = Unit
OkThen P stuck = Unit

pub OkThen-any {ℓ} : {A : Type ℓ} (m : Result A) → OkThen (λ a. Unit {0}) m
OkThen-any (ok a) = tt
OkThen-any (err e) = tt
OkThen-any panic = tt
OkThen-any stuck = tt

pub OkThen-bind {ℓ ℓ' κ κ'} :
    {A : Type ℓ} {B : Type ℓ'} (P : A → Type κ) (Q : B → Type κ') (m : Result A) (f : A → Result B)
    → OkThen P m
    → ((a : A) → P a → OkThen Q (f a))
    → OkThen Q (m >>= f)
OkThen-bind P Q (ok a) f h k = k a h
OkThen-bind P Q (err e) f h k = tt
OkThen-bind P Q panic f h k = tt
OkThen-bind P Q stuck f h k = tt

-- The call ends, in a value for which `P` holds, in an error or in a panic.
abbrev pub Ends {ℓ} : {A : Type ℓ} → (A → Type 0) → Result A → Type 0
Ends P (ok a) = P a
Ends P (err e) = Unit
Ends P panic = Unit
Ends P stuck = ⊥

pub Ends-weaken {ℓ} :
    {A : Type ℓ} (P Q : A → Type 0) (m : Result A) → ((a : A) → P a → Q a) → Ends P m → Ends Q m
Ends-weaken P Q (ok a) f h = f a h
Ends-weaken P Q (err e) f h = tt
Ends-weaken P Q panic f h = tt
Ends-weaken P Q stuck f h = h

pub Ends-bind {ℓ ℓ'} :
    {A : Type ℓ} {B : Type ℓ'} (P : A → Type 0) (Q : B → Type 0) (m : Result A) (f : A → Result B)
    → Ends P m
    → ((a : A) → P a → Ends Q (f a))
    → Ends Q (m >>= f)
Ends-bind P Q (ok a) f h k = k a h
Ends-bind P Q (err e) f h k = tt
Ends-bind P Q panic f h k = tt
Ends-bind P Q stuck f h k = absurd h

-- `(value, error)` of a function that neither panics nor loops; `Try.map` is what follows
-- `if err != nil { return …, err }` where that cannot fail any more.
pub data Try {ℓ} (A : Type ℓ) : Type ℓ where
  done : A → Try A
  fails : Error → Try A

abbrev pub map_try {ℓ κ} : {A : Type ℓ} {B : Type κ} → (A → B) → Try A → Try B
map_try f (done a) = done (f a)
map_try f (fails e) = fails e
