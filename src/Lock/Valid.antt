-- ===== src/Lock/Valid.antt =====
-- src/pyon/ion/directory.py: the documents of the locks, whose keys and ids are unique.
use scioncc.Prelude.{
  ℕ, String, ◌≡◌, refl, true, false, none, some, [], ◌∷◌, ◌==◌, if◌then◌else◌, nat_eq, string_eq,
  arith, eq_iff, eq_refl,
}
use scioncc.Prelude.Dict
use scioncc.Prelude.Dict.{get-put}
use scioncc.Lock.{LockEntry, Store, has_id, without_id}

-- Keys are unique, and so are ids.
abbrev pub IsValid : Store → Type 0
IsValid [] = Unit
IsValid ((k, e) ∷ s) = (Dict.get s k ≡ none) × (has_id s e.id ≡ false) × IsValid s

pub has_id-get :
    (s : Store) (k : String) (e : LockEntry) → Dict.get s k ≡ some e → has_id s e.id ≡ true
unfolding has_id Dict.get
has_id-get [] k e h = ground arith
has_id-get ((k', e') ∷ s) k e h = ground (arith, has_id-get s k e, eq_refl e.id)

pub without_id_missing : (s : Store) (id : ℕ) → has_id s id ≡ false → without_id s id ≡ s
unfolding has_id without_id
without_id_missing [] id h = refl
without_id_missing ((k, e) ∷ s) id h = ground (arith, without_id_missing s id)

pub get-without_id :
    (s : Store) (k j : String) (e : LockEntry)
    → IsValid s
    → Dict.get s k ≡ some e
    → Dict.get (without_id s e.id) j ≡ (if k == j then none else Dict.get s j)
unfolding has_id without_id Dict.get
get-without_id [] k j e v h = ground arith
get-without_id ((k', e') ∷ s) k j e v h = ground (
  arith,
  get-without_id s k j e v.2,
  has_id-get s k e,
  without_id_missing s e.id,
  eq_iff k' k,
  eq_iff k' j,
  eq_iff k j,
  eq_iff e'.id e.id,
)

has_id-put :
    (s : Store) (k : String) (old e : LockEntry) (id : ℕ)
    → Dict.get s k ≡ some old
    → e.id ≡ old.id
    → has_id (Dict.put s k e) id ≡ has_id s id
unfolding has_id Dict.get Dict.put
has_id-put [] k old e id at same = ground arith
has_id-put ((k', e') ∷ s) k old e id at same = ground (arith, has_id-put s k old e id)

-- An entry rewritten in place keeps the store valid.
pub IsValid-put :
    (s : Store) (k : String) (old e : LockEntry)
    → Dict.get s k ≡ some old
    → e.id ≡ old.id
    → IsValid s
    → IsValid (Dict.put s k e)
unfolding Dict.get Dict.put
IsValid-put [] k old e at same v = ground arith
IsValid-put ((k', e') ∷ s) k old e at same v = ground (
  arith,
  IsValid-put s k old e,
  has_id-put s k old e e'.id,
  get-put s k k' e,
  eq_iff k' k,
  eq_iff k k',
  has_id-get s k old,
)
