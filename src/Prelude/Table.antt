-- ===== src/Prelude/Table.antt =====
-- A table of rows with a TEXT PRIMARY KEY, and what the SQL statements of the store do with it.
-- `SELECT` without `ORDER BY` gives the rows in the order of their insertion.
use Prim.Native.Nat.{ℕ, suc}
use Prim.Native.String.{String}
use mathlib.Core.Path.{◌≡◌, refl, subst}
use mathlib.Core.Logic.{inl, inr}
use mathlib.Core.Bool.{Bool, true, false, ◌&&◌, ◌||◌}
use mathlib.Core.Option.{Option, none, some, some-injective}
use mathlib.Core.List.{List, [], ◌∷◌, ◌++◌}
use native.Mathlib.Omega.{arith}
use text.Mathlib.Text.{◌==◌}
use text.Mathlib.TextEquality.{eq_iff}
use text.Mathlib.TextPositions.{eq_refl}
use anti_subagent.Prelude.Tests.{if◌then◌else◌, Bool-cases}
use anti_subagent.Prelude.Lists.{All}

module _ {ℓ} {R : Type ℓ} (key : R → String) where
  -- SELECT … WHERE key = k: the first row of the answer.
  abbrev pub find_row : String → List R → Option R
  find_row k [] = none
  find_row k (r ∷ t) = if key r == k then some r else find_row k t

  abbrev pub has_row : String → List R → Bool
  has_row k [] = false
  has_row k (r ∷ t) = key r == k || has_row k t

  -- INSERT: refused where the key is taken.
  abbrev pub insert_row : R → List R → Option (List R)
  insert_row r t = if has_row (key r) t then none else some (t ++ r ∷ [])

  abbrev pub delete_row : String → List R → List R
  delete_row k [] = []
  delete_row k (r ∷ t) = if key r == k then delete_row k t else r ∷ delete_row k t

  -- INSERT OR REPLACE: the row with the same key goes first.
  abbrev pub replace_row : R → List R → List R
  replace_row r t = delete_row (key r) t ++ r ∷ []

  -- UPDATE … SET f WHERE key = k AND g.
  abbrev pub update_rows : String → (R → Bool) → (R → R) → List R → List R
  update_rows k g f [] = []
  update_rows k g f (r ∷ t) = (if key r == k && g r then f r else r) ∷ update_rows k g f t

  -- The number of rows that such an UPDATE changes.
  abbrev pub changed_rows : String → (R → Bool) → List R → ℕ
  changed_rows k g [] = 0
  changed_rows k g (r ∷ t) =
      let rest = changed_rows k g t in if key r == k && g r then suc rest else rest

  -- No two rows share a key.
  abbrev pub IsKeyed : List R → Type 0
  IsKeyed [] = Unit {0}
  IsKeyed (r ∷ t) = (has_row (key r) t ≡ false) × IsKeyed t

abbrev pub set_if {ℓ} : {R : Type ℓ} → (R → Bool) → (R → R) → Option R → Option R
set_if g f none = none
set_if g f (some r) = some (if g r then f r else r)

abbrev pub or_else {ℓ} : {R : Type ℓ} → Option R → Option R → Option R
or_else none o = o
or_else (some r) o = some r

abbrev pub hits {ℓ} : {R : Type ℓ} → (R → Bool) → Option R → ℕ
hits g none = 0
hits g (some r) = if g r then 1 else 0

module _ {ℓ} {R : Type ℓ} (key : R → String) where
  pub find-append :
      (k : String) (r : R) (t : List R)
      → find_row key k (t ++ r ∷ [])
        ≡ or_else (find_row key k t) (if key r == k then some r else none)
  find-append k r [] = refl
  find-append k r (x ∷ t) = ground (arith, find-append k r t)

  pub has-row-find : (k : String) (t : List R) → has_row key k t ≡ false → find_row key k t ≡ none
  has-row-find k [] h = refl
  has-row-find k (r ∷ t) h = ground (arith, has-row-find k t)

  pub find-has-row : (k : String) (t : List R) → find_row key k t ≡ none → has_row key k t ≡ false
  find-has-row k [] h = refl
  find-has-row k (r ∷ t) h = ground (arith, find-has-row k t)

  pub find-key : (k : String) (t : List R) {r : R} → find_row key k t ≡ some r → (key r == k) ≡ true
  find-key k [] h = ground arith
  find-key k (x ∷ t) {r} h = ground (arith, find-key k t {r = r})

  pub find-delete :
      (k j : String) (t : List R)
      → find_row key j (delete_row key k t) ≡ (if k == j then none else find_row key j t)
  find-delete k j [] = ground arith
  find-delete k j (r ∷ t) =
      ground (arith, find-delete k j t, eq_iff (key r) k, eq_iff (key r) j, eq_iff k j)

  -- A lookup after INSERT OR REPLACE.
  pub find-replace :
      (j : String) (r : R) (t : List R)
      → find_row key j (replace_row key r t) ≡ (if key r == j then some r else find_row key j t)
  find-replace j r t =
      ground (arith, find-append j r (delete_row key (key r) t), find-delete (key r) j t)

  -- A lookup after UPDATE.
  pub find-update :
      (k j : String) (g : R → Bool) (f : R → R) (t : List R)
      → ((r : R) → key (f r) ≡ key r)
      → find_row key j (update_rows key k g f t)
        ≡ (if k == j then set_if g f (find_row key j t) else find_row key j t)
  find-update k j g f [] keeps = ground arith
  find-update k j g f (r ∷ t) keeps =
      ground (
        arith,
        keeps r,
        find-update k j g f t keeps,
        eq_iff (key r) k,
        eq_iff (key r) j,
        eq_iff k j,
      )

  changed_absent :
      (k : String) (g : R → Bool) (t : List R)
      → has_row key k t ≡ false
      → changed_rows key k g t ≡ 0
  changed_absent k g [] h = refl
  changed_absent k g (r ∷ t) h = ground (arith, changed_absent k g t)

  -- The rows that an UPDATE changes are counted by the row that a lookup finds.
  pub changed-find :
      (k : String) (g : R → Bool) (t : List R)
      → IsKeyed key t
      → changed_rows key k g t ≡ hits g (find_row key k t)
  changed-find k g [] h = refl
  changed-find k g (r ∷ t) h =
      ground (arith, changed_absent k g t, changed-find k g t h.1, eq_iff (key r) k)

  pub has-row-update :
      (k j : String) (g : R → Bool) (f : R → R) (t : List R)
      → ((r : R) → key (f r) ≡ key r)
      → has_row key j (update_rows key k g f t) ≡ has_row key j t
  has-row-update k j g f [] keeps = refl
  has-row-update k j g f (r ∷ t) keeps = ground (arith, keeps r, has-row-update k j g f t keeps)

  pub update-IsKeyed :
      (k : String) (g : R → Bool) (f : R → R) (t : List R)
      → ((r : R) → key (f r) ≡ key r)
      → IsKeyed key t
      → IsKeyed key (update_rows key k g f t)
  update-IsKeyed k g f [] keeps h = tt
  update-IsKeyed k g f (r ∷ t) keeps h = (
    ground (arith, keeps r, has-row-update k (key r) g f t keeps),
    update-IsKeyed k g f t keeps h.1,
  )

  has-row-append :
      (k : String) (r : R) (t : List R)
      → has_row key k (t ++ r ∷ []) ≡ has_row key k t || (key r == k)
  has-row-append k r [] = ground arith
  has-row-append k r (x ∷ t) = ground (arith, has-row-append k r t)

  pub append-IsKeyed :
      (r : R) (t : List R)
      → has_row key (key r) t ≡ false
      → IsKeyed key t
      → IsKeyed key (t ++ r ∷ [])
  append-IsKeyed r [] h k = (refl, tt)
  append-IsKeyed r (x ∷ t) h k = (
    ground (arith, has-row-append (key x) r t, eq_iff (key x) (key r), eq_iff (key r) (key x)),
    append-IsKeyed r t (ground arith) k.1,
  )

  -- The keys after DELETE and after INSERT OR REPLACE.
  pub has-row-delete_any :
      (k j : String) (t : List R)
      → has_row key j (delete_row key k t) ≡ (if k == j then false else has_row key j t)
  has-row-delete_any k j [] = ground arith
  has-row-delete_any k j (r ∷ t) =
      ground (arith, has-row-delete_any k j t, eq_iff (key r) k, eq_iff (key r) j, eq_iff k j)

  pub has-row-replace :
      (r : R) (j : String) (t : List R)
      → has_row key j (replace_row key r t) ≡ (if key r == j then true else has_row key j t)
  has-row-replace r j t =
      ground (arith, has-row-append j r (delete_row key (key r) t), has-row-delete_any (key r) j t)

  has-row-delete :
      (k j : String) (t : List R)
      → has_row key j t ≡ false
      → has_row key j (delete_row key k t) ≡ false
  has-row-delete k j [] h = refl
  has-row-delete k j (r ∷ t) h = ground (arith, has-row-delete k j t)

  has-row-delete_self : (k : String) (t : List R) → has_row key k (delete_row key k t) ≡ false
  has-row-delete_self k [] = refl
  has-row-delete_self k (r ∷ t) = ground (arith, has-row-delete_self k t)

  delete-IsKeyed : (k : String) (t : List R) → IsKeyed key t → IsKeyed key (delete_row key k t)
  delete-IsKeyed k [] h = tt
  delete-IsKeyed k (r ∷ t) h = elim (Bool-cases (key r == k)) [
    | inl e ↦ rw e (delete-IsKeyed k t h.1)
    | inr e ↦ rw e (has-row-delete k (key r) t h.0, delete-IsKeyed k t h.1)
  ]

  pub replace-IsKeyed : (r : R) (t : List R) → IsKeyed key t → IsKeyed key (replace_row key r t)
  replace-IsKeyed r t k =
      append-IsKeyed r (delete_row key (key r) t) (has-row-delete_self (key r) t)
        (delete-IsKeyed (key r) t k)

module _ {ℓ κ} {R : Type ℓ} (key : R → String) (P : R → Type κ) where
  -- What holds of every row holds of the row that a lookup finds.
  pub All-find : (k : String) (t : List R) {r : R} → All P t → find_row key k t ≡ some r → P r
  All-find k [] {r} h e = absurd (cc e)
  All-find k (x ∷ t) {r} h e = elim (Bool-cases (key x == k)) [
    | inl y ↦ subst P (some-injective x r (rw y at e)) h.0
    | inr n ↦ All-find k t h.1 (rw n at e)
  ]

  pub All-update :
      (k : String) (g : R → Bool) (f : R → R) (t : List R)
      → ((r : R) → P r → P (f r))
      → All P t
      → All P (update_rows key k g f t)
  All-update k g f [] keeps h = tt
  All-update k g f (r ∷ t) keeps h = (go (key r == k && g r), All-update k g f t keeps h.1)
    where
      go : (b : Bool) → P (if b then f r else r)
      go true = keeps r h.0
      go false = h.0

  pub All-append : (r : R) (t : List R) → P r → All P t → All P (t ++ r ∷ [])
  All-append r [] p h = (p, tt)
  All-append r (x ∷ t) p h = (h.0, All-append r t p h.1)

module _ {ℓ} {R : Type ℓ} (key : R → String) where
  found_behind :
      (r : R) (whole ts : List R)
      → has_row key (key r) ts ≡ false
      → All (λ (x : R). find_row key (key x) whole ≡ some x) ts
      → All (λ (x : R). find_row key (key x) (r ∷ whole) ≡ some x) ts
  found_behind r whole [] h a = tt
  found_behind r whole (t ∷ ts) h a = (
    ground (arith, a.0, eq_iff (key r) (key t), eq_iff (key t) (key r)),
    found_behind r whole ts (ground arith) a.1,
  )

  -- Every row is the one that a lookup of its key finds.
  pub keyed_found :
      (t : List R) → IsKeyed key t → All (λ (x : R). find_row key (key x) t ≡ some x) t
  keyed_found [] k = tt
  keyed_found (r ∷ t) k = (rw (eq_refl (key r)) refl, found_behind r t t k.0 (keyed_found t k.1))
