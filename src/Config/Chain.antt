-- ===== src/Config/Chain.antt =====
-- Chains of steps that may refuse, and what holds of their result.
use supervisorcpp.Prelude.{Option, none, some, Tried, returns, throws, ◌≡◌, refl, subst}
use supervisorcpp.Util.Secure.{Checked, valid, refused}

infixl 5 ◌>>=◌
unfoldable pub ◌>>=◌ {ℓ κ} : {A : Type ℓ} {B : Type κ} → Checked A → (A → Checked B) → Checked B
valid a >>= f = f a
refused >>= f = refused

abbrev pub of_option {ℓ} : {A : Type ℓ} → Option A → Checked A
of_option none = refused
of_option (some a) = valid a

-- An exception of any kind ends in a `ConfigParseError`.
abbrev pub of_tried {ℓ} : {A : Type ℓ} → Tried A → Checked A
of_tried (returns a) = valid a
of_tried (throws _) = refused

-- What is returned, where something is, satisfies `P`.
abbrev pub Ensures {ℓ κ} : {A : Type ℓ} → (A → Type κ) → Checked A → Type κ
Ensures P (valid a) = P a
Ensures P refused = Unit

pub Ensures-bind {ℓ κ ι} :
    {A : Type ℓ} {B : Type κ} (Q : A → Type ι) (P : B → Type ι) (m : Checked A) (f : A → Checked B)
    → Ensures Q m
    → ((a : A) → Q a → Ensures P (f a))
    → Ensures P (m >>= f)
unfolding ◌>>=◌
Ensures-bind Q P (valid a) f h k = k a h
Ensures-bind Q P refused f h k = tt

-- A step about which nothing is asked.
pub Ensures-any {ℓ κ ι} :
    {A : Type ℓ} {B : Type κ} (P : B → Type ι) (m : Checked A) (f : A → Checked B)
    → ((a : A) → Ensures P (f a))
    → Ensures P (m >>= f)
unfolding ◌>>=◌
Ensures-any P (valid a) f k = k a
Ensures-any P refused f k = tt

pub Ensures-imp {ℓ ι} :
    {A : Type ℓ} (Q P : A → Type ι) (m : Checked A)
    → ((a : A) → Q a → P a)
    → Ensures Q m
    → Ensures P m
Ensures-imp Q P (valid a) k h = k a h
Ensures-imp Q P refused k h = tt

-- From what a step returns to what is ensured, and back.
pub Ensures-valid {ℓ ι} :
    {A : Type ℓ} (P : A → Type ι) (m : Checked A) (a : A) → Ensures P m → m ≡ valid a → P a
Ensures-valid P m a h e = subst (Ensures P) e h

pub Ensures-self {ℓ} : {A : Type ℓ} (m : Checked A) → Ensures (λ a. m ≡ valid a) m
Ensures-self (valid a) = refl
Ensures-self refused = tt

-- A step after which all that follows refuses.
pub bind_refused {ℓ κ ι} :
    {A : Type ℓ} {B : Type κ} (Q : A → Type ι) (m : Checked A) (f : A → Checked B)
    → Ensures Q m
    → ((a : A) → Q a → f a ≡ refused)
    → m >>= f ≡ refused
unfolding ◌>>=◌
bind_refused Q (valid a) f h k = k a h
bind_refused Q refused f h k = refl
