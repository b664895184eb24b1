-- ===== src/Exceptions/Rules.antt =====
-- What a call with exceptions gives, against a description of its value.
use ncx_for_mall.Prelude.{
  ◌≡◌, refl, sym, subst, inl, inr, Option, none, some, Bool, Option-cases, ap, List, [], ◌∷◌, ◌++◌,
  append_assoc,
}
use ncx_for_mall.Exceptions.{
  is_some, Reason, Try, value, throws, exits, crashes, ◌>>=◌, catch_exit, deref, require,
}

-- Options in sequence.
abbrev pub and_then {ℓ κ} : {A : Type ℓ} {B : Type κ} → Option A → (A → Option B) → Option B
and_then none f = none
and_then (some a) f = f a

pub and_then-some : {A : Type 0} (o : Option A) → and_then o some ≡ o
and_then-some none = refl
and_then-some (some a) = refl

-- A call that returns what is described, or throws where nothing is; and the same behind the `catch`.
abbrev pub Gives : {A : Type 0} → Try A → Option A → Type 0
Gives (value a) (some b) = a ≡ b
Gives (throws r) none = Unit {0}
Gives _ _ = ⊥

abbrev pub Loads : {A : Type 0} → Try A → Option A → Type 0
Loads (value a) (some b) = a ≡ b
Loads (exits r) none = Unit {0}
Loads _ _ = ⊥

pub Gives-Loads : {A : Type 0} (t : Try A) (o : Option A) → Gives t o → Loads (catch_exit t) o
Gives-Loads (value a) (some b) h = h
Gives-Loads (value a) none h = h
Gives-Loads (throws r) (some b) h = h
Gives-Loads (throws r) none h = h
Gives-Loads (exits r) (some b) h = absurd h
Gives-Loads (exits r) none h = absurd h
Gives-Loads crashes (some b) h = h
Gives-Loads crashes none h = h

pub Gives->>= :
    {A B : Type 0} (t : Try A) (o : Option A) (f : A → Try B) (g : A → Option B)
    → Gives t o
    → ((a : A) → Gives (f a) (g a))
    → Gives (t >>= f) (and_then o g)
Gives->>= (value a) (some b) f g h k = subst (λ x. Gives (f a) (g x)) h (k a)
Gives->>= (value a) none f g h k = absurd h
Gives->>= (throws r) (some b) f g h k = absurd h
Gives->>= (throws r) none f g h k = tt
Gives->>= (exits r) o f g h k = absurd h
Gives->>= crashes o f g h k = absurd h

-- The rule for a checked field, whose node is cast later.
pub Gives-require :
    {A B N : Type 0} (test : N → Bool) (cast : N → Option A) (r : Reason) (o : Option N)
    (k : N → Try B) (g : A → Option B)
    → ((n : N) → is_some (cast n) ≡ test n)
    → ((n : N) (a : A) → deref (cast n) ≡ value a → Gives (k n) (g a))
    → Gives (require test r o >>= k) (and_then (and_then o cast) g)
Gives-require test cast r none k g law rest = tt
Gives-require test cast r (some n) k g law rest = elim (Option-cases (cast n)) [
  | inl e ↦ rw (sym (law n), e) tt
  | inr (a, e) ↦ rw (sym (law n), e) (rest n a (rw e))
]

-- A function at every element, in order, where it has a value at each.
abbrev pub every : {A B : Type 0} → (A → Option B) → List A → Option (List B)
every f [] = some []
every f (a ∷ rest) = and_then (f a) λ b. and_then (every f rest) λ more. some (b ∷ more)

-- A loop that pushes back its results, against one that puts them in front.
pub pushed-and_then :
    {A : Type 0} (acc : List A) (x : Option A) (rest : Option (List A))
    → and_then x (λ a. and_then rest λ more. some ((acc ++ a ∷ []) ++ more))
      ≡ and_then
          (and_then x λ a. and_then rest λ more. some (a ∷ more))
          (λ more. some (acc ++ more))
pushed-and_then acc none rest = refl
pushed-and_then acc (some a) none = refl
pushed-and_then acc (some a) (some more) = ap some (append_assoc acc (a ∷ []) more)

-- A call that gives what is there returns it.
pub Gives-value : {A : Type 0} (t : Try A) (a : A) → Gives t (some a) → t ≡ value a
Gives-value (value b) a h = ap value h
Gives-value (throws r) a h = absurd h
Gives-value (exits r) a h = absurd h
Gives-value crashes a h = absurd h
