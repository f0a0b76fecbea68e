-- ===== src/Lock.antt =====
-- src/pyon/ion/directory.py: the directory's locks, over the three statements of the datastore that
-- they use (src/pyon/datastore/postgresql/base_store.py). Between two statements of one call other
-- processes may write: `env n` is what they do before the call's statement number n. Clock readings
-- are arguments, in the order in which the call makes them. The argument `lock_info` is left at its
-- default.
pub mod Valid
pub mod Acquire
pub mod Held
pub mod Excluding
pub mod Race
pub mod Expired
mod Tests
use scioncc.Prelude.{
  ℕ, ◌+◌, ◌≤◌, String, ◌≡◌, Bool, true, false, not, Option, none, some, List, [], ◌∷◌, ◌&&◌, ◌||◌,
  ◌==◌, if◌then◌else◌, leb, ltb, nat_eq, string_eq, Result, ok, err, is_some,
}
use Prim.Native.Char.{Char, code}
use Prim.Native.String
use scioncc.Prelude.Dict
use scioncc.Prelude.Dict.{Dict}

-- A DirEntry below LOCK_DIR_PATH: its document id and revision, and its two attributes.
pub record LockEntry : Type 0 where
  pub id : ℕ
  pub rev : ℕ
  pub expires : ℕ
  pub holder : String

-- The entries below LOCK_DIR_PATH by key: (org, parent, key) is unique in the table.
abbrev pub Store : Type 0
Store = Dict String LockEntry

pub data StoreError : Type 0 where
  already_exists conflict not_found : StoreError

-- INSERT, refused by the unique constraint on (org, parent, key). Ids are drawn by uuid4 and taken to be
-- new: the refusal of an id in use, which acquire_lock raises on, is left out.
unfoldable pub create_doc : Store → String → LockEntry → Result StoreError Store
create_doc s key e =
    if Dict.has_key s key then err already_exists else ok (Dict.put s key (record e { rev = 1 }))

-- UPDATE … WHERE id=… AND rev=…
unfoldable pub update_doc : Store → String → LockEntry → Result StoreError Store
update_doc s key e = elim (Dict.get s key) [
  | none ↦ err conflict
  | some old ↦
      if (old.id == e.id) && (old.rev == e.rev)
      then ok (Dict.put s key (record e { rev = e.rev + 1 }))
      else err conflict
]

unfoldable pub has_id : Store → ℕ → Bool
has_id [] id = false
has_id ((k, e) ∷ s) id = (e.id == id) || has_id s id

unfoldable pub without_id : Store → ℕ → Store
without_id [] id = []
without_id ((k, e) ∷ s) id =
    let rest = without_id s id in if e.id == id then rest else (k, e) ∷ rest

-- DELETE … WHERE id=…
unfoldable pub delete_doc : Store → ℕ → Result StoreError Store
delete_doc s id = if has_id s id then ok (without_id s id) else err not_found

abbrev has_slash : String → Bool
has_slash String.[] = false
has_slash (String.◌∷◌ c s) = (code c == b'/') || has_slash s

pub data LockError : Type 0 where
  missing_key invalid_key invalid_expiration not_holder no_lock : LockError
  store_error : StoreError → LockError

-- The two tests on the key that start each call.
abbrev pub key_error : String → Option LockError
key_error key =
    if key == "" then some missing_key else if has_slash key then some invalid_key else none

-- `0 < expires <= now`
abbrev pub is_lock_expired : LockEntry → ℕ → Bool
is_lock_expired e now = ltb 0 e.expires && leb e.expires now

-- The lock's expiration, with the timeout in milliseconds: none for the timeout 0.
abbrev pub expiration : ℕ → ℕ → ℕ
expiration now timeout = if timeout == 0 then 0 else now + timeout

abbrev pub Env : Type 0
Env = ℕ → Store → Store

abbrev pub alone : Env
alone n s = s

-- What acquire_lock is called with, its clock readings and the ids that it draws.
pub record Request : Type 0 where
  pub key : String
  pub timeout : ℕ
  pub lock_holder : String
  pub now : ℕ
  pub now_check : ℕ
  pub now_expired : ℕ
  pub id : ℕ
  pub id_again : ℕ

abbrev pub lock_entry : Request → ℕ → LockEntry
lock_entry q id = record {
  id = id;
  rev = 1;
  expires = expiration q.now q.timeout;
  holder = q.lock_holder;
}

module _ (env : Env) (q : Request) where
  -- Remove the expired lock and try again; every exception ends in False.
  unfoldable pub replace_expired : Store → LockEntry → Bool × Store
  replace_expired s old = elim (delete_doc s old.id) [
    | err e ↦ (false, s)
    | ok deleted ↦
        let s' = env 3 deleted in
        elim (create_doc s' q.key (lock_entry q q.id_again)) [
          | err e ↦ (false, s')
          | ok created ↦ (true, created)
        ]
  ]

  -- The holder writes the new attributes into the entry that it read.
  unfoldable pub renew : Store → LockEntry → Bool × Store
  renew s old =
      elim (update_doc s q.key
        (record old { expires = expiration q.now q.timeout; holder = q.lock_holder })) [
          | err e ↦ (false, s)
          | ok updated ↦ (true, updated)
        ]

  -- The entry was there: what the lookup finds decides.
  unfoldable pub take_over : Store → Bool × Store
  take_over s = elim (Dict.get s q.key) [
    | none ↦ (false, s)
    | some old ↦
        if is_lock_expired old q.now_expired
        then replace_expired (env 2 s) old
        else if not (q.lock_holder == "") && (old.holder == q.lock_holder)
        then renew (env 2 s) old
        else (false, s)
  ]

  unfoldable pub try_create : Store → Bool × Store
  try_create s = elim (create_doc s q.key (lock_entry q q.id)) [
    | ok created ↦ (true, created)
    | err e ↦ take_over (env 1 s)
  ]

  unfoldable pub acquire_lock : Store → Result LockError Bool × Store
  acquire_lock s = elim (key_error q.key) [
    | some e ↦ (err e, s)
    | none ↦
        let expires = expiration q.now q.timeout in
        if not (expires == 0) && ltb expires q.now_check
        then (err invalid_expiration, s)
        else (let (result, s') = try_create s in (ok result, s'))
  ]

-- is_locked, with one clock reading
unfoldable pub is_locked : Store → String → ℕ → Result LockError Bool
is_locked s key now = elim (key_error key) [
  | some e ↦ err e
  | none ↦ ok (elim (Dict.get s key) [ none ↦ false | some e ↦ not (is_lock_expired e now) ])
]

-- release_lock; `env 1` runs between the lookup and the delete.
unfoldable pub release_lock : Env → Store → String → String → Result LockError (Unit {0}) × Store
release_lock env s key lock_holder = elim (key_error key) [
  | some e ↦ (err e, s)
  | none ↦ elim (Dict.get s key) [
    | none ↦ (err no_lock, s)
    | some entry ↦
        if not (lock_holder == "") && not (entry.holder == lock_holder)
        then (err not_holder, s)
        else elim (delete_doc (env 1 s) entry.id) [
          | err e ↦ (err (store_error e), env 1 s)
          | ok deleted ↦ (ok tt, deleted)
        ]
  ]
]
