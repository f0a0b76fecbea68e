-- ===== src/Lock/Expired.antt =====
-- src/pyon/ion/directory.py, `release_expired_locks`: the entries are listed once, and each is tested by
-- a clock reading of its own and deleted by its id; an exception of a delete is logged. `now n` is the
-- reading for the entry number n, and `env n` what others write before its delete.
use scioncc.Prelude.{
  ℕ, ◌+◌, ◌≡◌, refl, sym, ap, ◌∙◌, String, true, false, Bool-cases, inl, inr, [], ◌∷◌, ◌++◌,
  append-append, ◌||◌, if◌then◌else◌, eq_iff, eq_refl, nat_eq, string_eq, ok, err, arith,
}
use scioncc.Lock.{LockEntry, Store, Env, alone, delete_doc, has_id, without_id, is_lock_expired}
use scioncc.Lock.Valid.{IsValid, without_id_missing}

unfoldable pub remove_entry : Env → (ℕ → ℕ) → ℕ → LockEntry → Store → Store
remove_entry env now n e s =
    if is_lock_expired e (now n)
    then elim (delete_doc (env n s) e.id) [ err x ↦ env n s | ok deleted ↦ deleted ]
    else s

unfoldable pub remove_entries : Env → (ℕ → ℕ) → ℕ → Store → Store → Store
unfolding remove_entry
remove_entries env now n [] s = s
remove_entries env now n ((k, e) ∷ listed) s =
    remove_entries env now (n + 1) listed (remove_entry env now n e s)

unfoldable pub release_expired_locks : Env → (ℕ → ℕ) → Store → Store
unfolding remove_entries
release_expired_locks env now s = remove_entries env now 0 s s

-- The entries that are not expired by their readings.
abbrev pub unexpired : (ℕ → ℕ) → ℕ → Store → Store
unexpired now n [] = []
unexpired now n ((k, e) ∷ s) =
    let rest = unexpired now (n + 1) s in if is_lock_expired e (now n) then rest else (k, e) ∷ rest

has_id-append : (s r : Store) (id : ℕ) → has_id (s ++ r) id ≡ (has_id s id || has_id r id)
unfolding has_id
has_id-append [] r id = refl
has_id-append ((k, e) ∷ s) r id = ground (arith, has_id-append s r id)

without_id-append :
    (s r : Store) (id : ℕ) → without_id (s ++ r) id ≡ without_id s id ++ without_id r id
unfolding without_id
without_id-append [] r id = refl
without_id-append ((k, e) ∷ s) r id = ground (arith, without_id-append s r id)

-- Deleting by an id that no other entry has takes that entry out.
delete-middle :
    (s : Store) (k : String) (e : LockEntry) (r : Store)
    → has_id s e.id ≡ false
    → has_id r e.id ≡ false
    → delete_doc (s ++ (k, e) ∷ r) e.id ≡ ok (s ++ r)
unfolding delete_doc has_id without_id
delete-middle s k e r h g = ground (
  arith,
  has_id-append s ((k, e) ∷ r) e.id,
  without_id-append s ((k, e) ∷ r) e.id,
  without_id_missing s e.id h,
  without_id_missing r e.id g,
  eq_refl e.id,
)

-- No id of the second store is in the first.
abbrev Apart : Store → Store → Type 0
Apart s r = (id : ℕ) → has_id r id ≡ true → has_id s id ≡ false

Apart-own :
    (s : Store) (k : String) (e : LockEntry) (r : Store)
    → Apart s ((k, e) ∷ r)
    → has_id s e.id ≡ false
unfolding has_id
Apart-own s k e r a = a e.id (ground (arith, eq_refl e.id))

Apart-rest : (s : Store) (k : String) (e : LockEntry) (r : Store) → Apart s ((k, e) ∷ r) → Apart s r
unfolding has_id
Apart-rest s k e r a id h = a id (ground (arith, h))

Apart-kept :
    (s : Store) (k : String) (e : LockEntry) (r : Store)
    → has_id r e.id ≡ false
    → Apart s ((k, e) ∷ r)
    → Apart (s ++ (k, e) ∷ []) r
unfolding has_id
Apart-kept s k e r own a id h =
    ground
      (arith, has_id-append s ((k, e) ∷ []) id, Apart-rest s k e r a id h, eq_iff e.id id, own, h)

remove_entries-append :
    (now : ℕ → ℕ) (n : ℕ) (listed s : Store)
    → IsValid listed
    → Apart s listed
    → remove_entries alone now n listed (s ++ listed) ≡ s ++ unexpired now n listed
unfolding remove_entries remove_entry
remove_entries-append now n [] s v a = refl
remove_entries-append now n ((k, e) ∷ listed) s v a =
    let rest : Store = unexpired now (n + 1) listed in
    elim (Bool-cases (is_lock_expired e (now n))) [
      | inl x ↦
          (let gone : remove_entry alone now n e (s ++ (k, e) ∷ listed) ≡ s ++ listed =
              ground (arith, x, delete-middle s k e listed (Apart-own s k e listed a) v.1) in
            ap (remove_entries alone now (n + 1) listed) gone
            ∙ (remove_entries-append now (n + 1) listed s v.2 (Apart-rest s k e listed a)
                ∙ ap (λ b. s ++ (if b then rest else (k, e) ∷ rest)) (sym x)))
      | inr x ↦
          (let kept : Store = s ++ (k, e) ∷ [] in
            let same : remove_entry alone now n e (s ++ (k, e) ∷ listed) ≡ kept ++ listed =
              ground (arith, x) ∙ sym (append-append s ((k, e) ∷ []) listed) in
            ap (remove_entries alone now (n + 1) listed) same
            ∙ (remove_entries-append now (n + 1) listed kept v.2 (Apart-kept s k e listed v.1 a)
                ∙ (append-append s ((k, e) ∷ []) rest
                    ∙ ap (λ b. s ++ (if b then rest else (k, e) ∷ rest)) (sym x))))
    ]

-- In a store with unique keys and ids, uninterrupted, exactly the entries that have expired by their
-- own clock readings are removed; the others stay as they are, in their order.
pub release_expired_locks-unexpired :
    (now : ℕ → ℕ) (s : Store) → IsValid s → release_expired_locks alone now s ≡ unexpired now 0 s
unfolding release_expired_locks has_id
release_expired_locks-unexpired now s v = remove_entries-append now 0 s [] v (λ id h. refl)
