-- ===== src/Store/Lemmas.antt =====
-- Updating a row by its id changes one row.
use myturn_webportal.Prelude.{
  ℕ, ◌+◌, ◌<◌, ◌≤◌, ◌≡◌, ◌≢◌, refl, sym, ap, inl, inr, Bool, true, false, some, List, [], ◌∷◌,
  arith, Bool-cases, ◌==◌, All, find_first,
}
use mathlib.Core.Option.{some-injective}
use myturn_webportal.Prelude.{Result, ok, err, Error}
use myturn_webportal.Ledger.Posting.{Ledger}
use myturn_webportal.Store.{Db, in_ledger, update_rows}

pub in_ledger-eq-ok :
    {A : Type 0} (f : Ledger → Result (A × Ledger)) (db : Db) {a : A} {db' : Db}
    → in_ledger f db ≡ ok (a, db')
    → (f db.ledger ≡ ok (a, db'.ledger)) × (db' ≡ record db { ledger = db'.ledger })
in_ledger-eq-ok {A} f db {a} {db'} h = from (f db.ledger) refl h
  where
    from :
        (x : Result (A × Ledger))
        → f db.ledger ≡ x
        → ◌≡◌ {A = Result (A × Db)}
            (elim x [ ok (b, l) ↦ ok (b, record db { ledger = l }) | err e ↦ err e ])
            (ok (a, db'))
        → (f db.ledger ≡ ok (a, db'.ledger)) × (db' ≡ record db { ledger = db'.ledger })
    from (ok (b, l)) e h' = (ground arith, ground arith)
    from (err x) e h' = cc h'

module _ {A : Type 0} (f : Ledger → Result (A × Ledger)) (db : Db) where
  pub in_ledger-ok :
      {a : A} {l : Ledger}
      → f db.ledger ≡ ok (a, l)
      → in_ledger f db ≡ ok (a, record db { ledger = l })
  in_ledger-ok h = rw (h, in_ledger)

  pub in_ledger-err : {e : Error} → f db.ledger ≡ err e → in_ledger f db ≡ err e
  in_ledger-err h = rw (h, in_ledger)

pub find_first-holds {ℓ} :
    {A : Type ℓ} (p : A → Bool) (xs : List A) {r : A} → find_first p xs ≡ some r → p r ≡ true
find_first-holds p [] found = ground arith
find_first-holds p (x ∷ xs) found = elim (Bool-cases (p x)) [
  | inl hit ↦ rw (← some-injective _ _ (rw hit at found)) hit
  | inr miss ↦ find_first-holds p xs (rw miss at found)
]

abbrev pub sum_by {ℓ} : {A : Type ℓ} → (A → ℕ) → List A → ℕ
sum_by w [] = 0
sum_by w (x ∷ xs) = w x + sum_by w xs

module _ {ℓ} {A : Type ℓ} (id : A → ℕ) where
  abbrev pub IsAbsent : ℕ → List A → Type 0
  IsAbsent n [] = Unit
  IsAbsent n (x ∷ xs) = (id x ≢ n) × IsAbsent n xs

  -- `@id`: no two rows share an id.
  abbrev pub HasUniqueIds : List A → Type 0
  HasUniqueIds [] = Unit
  HasUniqueIds (x ∷ xs) = IsAbsent (id x) xs × HasUniqueIds xs

  pub update_rows-absent :
      (n : ℕ) (f : A → A) (xs : List A) → IsAbsent n xs → update_rows (λ x. id x == n) f xs ≡ xs
  unfolding update_rows
  update_rows-absent n f [] h = refl
  update_rows-absent n f (x ∷ xs) (ne, h) =
      let differ : (id x == n) ≡ false = ground arith in rw (differ, update_rows-absent n f xs h)

  find_first-absent :
      (n : ℕ) (p : A → Bool) (xs : List A) (r : A)
      → IsAbsent n xs
      → find_first p xs ≡ some r
      → id r ≢ n
  find_first-absent n p [] r h found = ground arith
  find_first-absent n p (x ∷ xs) r (ne, h) found = elim (Bool-cases (p x)) [
    | inl hit ↦ rw (← (some-injective _ _ (rw hit at found))) ne
    | inr miss ↦ find_first-absent n p xs r h (rw miss at found)
  ]

  -- A sum over the rows changes by what the found row's term changes.
  pub sum_by-update :
      (w : A → ℕ) (p : A → Bool) (f : A → A) (xs : List A) (r : A)
      → HasUniqueIds xs
      → find_first p xs ≡ some r
      → sum_by w (update_rows (λ x. id x == id r) f xs) + w r ≡ sum_by w xs + w (f r)
  unfolding update_rows
  sum_by-update w p f [] r h found = ground arith
  sum_by-update w p f (x ∷ xs) r (absent, h) found = elim (Bool-cases (p x)) [
    | inl hit ↦
        let x-r = some-injective _ _ (rw hit at found) in
        let same : (id x == id r) ≡ true = rw x-r (ground arith) in
        let rest = update_rows-absent (id r) f xs (rw (← x-r) absent) in
        rw (same, rest, x-r) (omega arith)
    | inr miss ↦
        let found_rest = rw miss at found in
        let other = find_first-absent (id x) p xs r absent found_rest in
        let differ : (id x == id r) ≡ false = ground arith in
        rw differ (omega (arith, sum_by-update w p f xs r h found_rest))
  ]

  All-absent {κ μ} :
      (P : A → Type κ) (Q : A → Type μ) (n : ℕ) (xs : List A)
      → IsAbsent n xs
      → ((x : A) → id x ≢ n → P x → Q x)
      → All P xs
      → All Q xs
  All-absent P Q n [] h weaken all = tt
  All-absent P Q n (x ∷ xs) (ne, h) weaken (px, all) =
      (weaken x ne px, All-absent P Q n xs h weaken all)

  -- The found row has the one property after its update, and the others have it from the other.
  pub All-update-other {κ μ} :
      (P : A → Type κ) (Q : A → Type μ) (p : A → Bool) (f : A → A) (xs : List A) (r : A)
      → HasUniqueIds xs
      → find_first p xs ≡ some r
      → (P r → Q (f r))
      → ((x : A) → id x ≢ id r → P x → Q x)
      → All P xs
      → All Q (update_rows (λ x. id x == id r) f xs)
  unfolding update_rows
  All-update-other P Q p f [] r h found here weaken all = tt
  All-update-other P Q p f (x ∷ xs) r (absent, h) found here weaken (px, all) =
      elim (Bool-cases (p x)) [
        | inl hit ↦
            let x-r = some-injective _ _ (rw hit at found) in
            let same : (id x == id r) ≡ true = rw x-r (ground arith) in
            let absent_r = rw x-r at absent in
            let rest = update_rows-absent (id r) f xs absent_r in
            rw (same, rest, x-r)
              (here (rw (← x-r) px), All-absent P Q (id r) xs absent_r weaken all)
        | inr miss ↦
            let found_rest = rw miss at found in
            let other = find_first-absent (id x) p xs r absent found_rest in
            let differ : (id x == id r) ≡ false = ground arith in
            rw differ (
              weaken x (λ e. other (sym e)) px,
              All-update-other P Q p f xs r h found_rest here weaken all,
            )
      ]

  pub All-update {κ} :
      (P : A → Type κ) (p : A → Bool) (f : A → A) (xs : List A) (r : A)
      → HasUniqueIds xs
      → find_first p xs ≡ some r
      → (P r → P (f r))
      → All P xs
      → All P (update_rows (λ x. id x == id r) f xs)
  All-update P p f xs r h found keep all =
      All-update-other P P p f xs r h found keep (λ x _ px. px) all

  pub IsAbsent-update :
      (n : ℕ) (q : A → Bool) (f : A → A) (xs : List A)
      → ((x : A) → id (f x) ≡ id x)
      → IsAbsent n xs
      → IsAbsent n (update_rows q f xs)
  unfolding update_rows
  IsAbsent-update n q f [] keep h = h
  IsAbsent-update n q f (x ∷ xs) keep (ne, h) = elim (Bool-cases (q x)) [
    | inl hit ↦ rw hit (rw (keep x) ne, IsAbsent-update n q f xs keep h)
    | inr miss ↦ rw miss (ne, IsAbsent-update n q f xs keep h)
  ]

  pub HasUniqueIds-update :
      (q : A → Bool) (f : A → A) (xs : List A)
      → ((x : A) → id (f x) ≡ id x)
      → HasUniqueIds xs
      → HasUniqueIds (update_rows q f xs)
  unfolding update_rows
  HasUniqueIds-update q f [] keep h = h
  HasUniqueIds-update q f (x ∷ xs) keep (absent, h) = elim (Bool-cases (q x)) [
    | inl hit ↦
        rw hit (
          rw (keep x) (IsAbsent-update (id x) q f xs keep absent),
          HasUniqueIds-update q f xs keep h,
        )
    | inr miss ↦
        rw miss (IsAbsent-update (id x) q f xs keep absent, HasUniqueIds-update q f xs keep h)
  ]

  -- A row that was found by its id is the updated one afterwards.
  pub find_first-update :
      (f : A → A) (n : ℕ) (xs : List A) (r : A)
      → ((x : A) → id (f x) ≡ id x)
      → find_first (λ x. id x == n) xs ≡ some r
      → find_first (λ x. id x == n) (update_rows (λ x. id x == n) f xs) ≡ some (f r)
  unfolding update_rows
  find_first-update f n [] r keep found = ground arith
  find_first-update f n (x ∷ xs) r keep found = elim (Bool-cases (id x == n)) [
    | inl hit ↦
        rw hit (rw (keep x, hit) (ap (λ y. some (f y)) (some-injective _ _ (rw hit at found))))
    | inr miss ↦ rw miss (rw miss (find_first-update f n xs r keep (rw miss at found)))
  ]

  -- A row with another id is found as before.
  pub find_first-update_other :
      (f : A → A) (n m : ℕ) (xs : List A)
      → ((x : A) → id (f x) ≡ id x)
      → n ≢ m
      → find_first (λ x. id x == m) (update_rows (λ x. id x == n) f xs)
        ≡ find_first (λ x. id x == m) xs
  unfolding update_rows
  find_first-update_other f n m [] keep ne = refl
  find_first-update_other f n m (x ∷ xs) keep ne = elim (Bool-cases (id x == n)) [
    | inl hit ↦
        let differ : (id x == m) ≡ false = ground arith in
        rw hit (rw (keep x, differ) (find_first-update_other f n m xs keep ne))
    | inr miss ↦ rw miss (elim (Bool-cases (id x == m)) [
      | inl here ↦ rw here
      | inr later ↦ rw later (find_first-update_other f n m xs keep ne)
    ])
  ]

  -- An id that all rows are below is absent.
  pub IsAbsent-below : (n : ℕ) (xs : List A) → All (λ x. id x < n) xs → IsAbsent n xs
  IsAbsent-below n [] h = tt
  IsAbsent-below n (x ∷ xs) (lt, h) = (ground arith, IsAbsent-below n xs h)

pub All-weaken {ℓ κ μ} :
    {A : Type ℓ} (P : A → Type κ) (Q : A → Type μ) (xs : List A)
    → ((x : A) → P x → Q x)
    → All P xs
    → All Q xs
All-weaken P Q [] weaken all = tt
All-weaken P Q (x ∷ xs) weaken (px, all) = (weaken x px, All-weaken P Q xs weaken all)

pub All-find {ℓ κ} :
    {A : Type ℓ} (P : A → Type κ) (p : A → Bool) (xs : List A) {r : A}
    → find_first p xs ≡ some r
    → All P xs
    → P r
All-find P p [] found all = ground arith
All-find P p (x ∷ xs) found (px, all) = elim (Bool-cases (p x)) [
  | inl hit ↦ rw (← some-injective _ _ (rw hit at found)) px
  | inr miss ↦ All-find P p xs (rw miss at found) all
]

-- One row's term is at most the sum.
pub le-sum_by {ℓ} :
    {A : Type ℓ} (w : A → ℕ) (p : A → Bool) (xs : List A) {r : A}
    → find_first p xs ≡ some r
    → w r ≤ sum_by w xs
le-sum_by w p [] found = ground arith
le-sum_by w p (x ∷ xs) {r} found = elim (Bool-cases (p x)) [
  | inl hit ↦ let x-r = some-injective _ _ (rw hit at found) in rw x-r (omega arith)
  | inr miss ↦ omega (arith, le-sum_by w p xs (rw miss at found))
]
