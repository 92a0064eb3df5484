-- ===== src/Ctl/Worlds.antt =====
-- supervisorctl.h: a command as a function of the world, which returns or throws.
use supervisorcpp.Prelude.{◌++◌, Bytes}
use supervisorcpp.Ctl.Call.{Failure}

-- The state of the other side, and what was written to the two streams.
pub record World (S : Type 0) : Type 0 where
  pub daemon : S
  pub out : Bytes
  pub err : Bytes

-- What a command returns, or what it throws.
pub data Result {ℓ} (A : Type ℓ) : Type ℓ where
  ok : A → Result A
  error : Failure → Result A

-- A command over the world.
abbrev pub Command {ℓ} : Type 0 → Type ℓ → Type ℓ
Command S A = World S → World S × Result A

-- What follows a result.
abbrev pub go_on {ℓ κ} :
    {S : Type 0} {A : Type ℓ} {B : Type κ}
    → (A → Command S B)
    → World S
    → Result A
    → World S × Result B
go_on f w (ok a) = f a w
go_on f w (error e) = (w, error e)

infixl 5 ◌>>=◌
unfoldable pub ◌>>=◌ {ℓ κ} :
    {S : Type 0} {A : Type ℓ} {B : Type κ} → Command S A → (A → Command S B) → Command S B
◌>>=◌ m f w = let (w', r) = m w in go_on f w' r

abbrev pub done {ℓ} : {S : Type 0} {A : Type ℓ} → A → Command S A
done a w = (w, ok a)

abbrev pub raise {ℓ} : {S : Type 0} {A : Type ℓ} → Failure → Command S A
raise e w = (w, error e)

-- `out_ << text` and `err_ << text`.
abbrev pub print : {S : Type 0} → Bytes → Command S (Unit {0})
print text w = (record w { out = w.out ++ text }, ok tt)

abbrev pub complain : {S : Type 0} → Bytes → Command S (Unit {0})
complain text w = (record w { err = w.err ++ text }, ok tt)

abbrev pub caught {ℓ} :
    {S : Type 0} {A : Type ℓ} → (Failure → Command S A) → World S → Result A → World S × Result A
caught f w (ok a) = (w, ok a)
caught f w (error e) = f e w

-- A `catch` clause.
unfoldable pub handle {ℓ} :
    {S : Type 0} {A : Type ℓ} → Command S A → (Failure → Command S A) → Command S A
handle m f w = let (w', r) = m w in caught f w' r
