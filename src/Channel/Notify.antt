-- ===== src/Channel/Notify.antt =====
-- src/pyon/net/channel.py, RecvChannel.SizeNotifyQueue: the queue that tells a waiting `accept` that it
-- holds enough. The AsyncResult is whether it is ready; `abort` is what the abort hook answers.
use scioncc.Prelude.{
  append-nil, append-append, sym, ap, ◌∙◌, ℕ, ◌+◌, ◌≡◌, Bool, true, false, not, ◌&&◌, ◌||◌, Option,
  none, some, List, [], ◌∷◌, ◌++◌, if◌then◌else◌, leb, length, length-append, Result, ok, err,
  arith,
}
use scioncc.Channel.{ChannelError, assertion}

pub record SizeNotifyQueue (A : Type 0) : Type 0 where
  pub items : List A
  pub size_ar : Option Bool
  pub await_number : ℕ

module _ {A : Type 0} where
  unfoldable pub check_and_fire : Bool → SizeNotifyQueue A → SizeNotifyQueue A
  check_and_fire abort q = elim q.size_ar [
    | none ↦ q
    | some ready ↦
        if not ready && (abort || leb q.await_number (length q.items))
        then record q { size_ar = some true }
        else q
  ]

  -- `_put`
  unfoldable pub put : Bool → A → SizeNotifyQueue A → SizeNotifyQueue A
  unfolding check_and_fire
  put abort item q = check_and_fire abort (record q { items = q.items ++ item ∷ [] })

  -- The entry of `await_n`; its exit is `release`.
  unfoldable pub await_n : Bool → ℕ → SizeNotifyQueue A → Result ChannelError (SizeNotifyQueue A)
  unfolding check_and_fire
  await_n abort n q = elim q.size_ar [
    | some ready ↦ err assertion
    | none ↦ ok (check_and_fire abort (record q { size_ar = some false; await_number = n }))
  ]

  abbrev pub release : SizeNotifyQueue A → SizeNotifyQueue A
  release q = record q { size_ar = none }

  unfoldable pub puts : List A → SizeNotifyQueue A → SizeNotifyQueue A
  unfolding put
  puts [] q = q
  puts (x ∷ xs) q = puts xs (put false x q)

  -- What a queue awaited for `n` items says: whether it has held as many.
  abbrev IsTelling : ℕ → SizeNotifyQueue A → Type 0
  IsTelling n q = (q.await_number ≡ n) × (q.size_ar ≡ some (leb n (length q.items)))

  put-IsTelling :
      (n : ℕ) (x : A) (q : SizeNotifyQueue A) → IsTelling n q → IsTelling n (put false x q)
  unfolding put check_and_fire
  put-IsTelling n x q (h, r) = ground (arith, length-append q.items (x ∷ []))

  puts-IsTelling :
      (n : ℕ) (xs : List A) (q : SizeNotifyQueue A) → IsTelling n q → IsTelling n (puts xs q)
  unfolding puts
  puts-IsTelling n [] q h = h
  puts-IsTelling n (x ∷ xs) q h = puts-IsTelling n xs (put false x q) (put-IsTelling n x q h)

  items-put : (x : A) (q : SizeNotifyQueue A) → (put false x q).items ≡ q.items ++ x ∷ []
  unfolding put check_and_fire
  items-put x q = ground arith

  items-puts : (xs : List A) (q : SizeNotifyQueue A) → (puts xs q).items ≡ q.items ++ xs
  unfolding puts
  items-puts [] q = sym (append-nil q.items)
  items-puts (x ∷ xs) q =
      items-puts xs (put false x q)
      ∙ (ap (λ l. l ++ xs) (items-put x q) ∙ append-append q.items (x ∷ []) xs)

  -- On a queue that nobody waits on, a wait for `n` items is over as soon as what was there and what
  -- is put meanwhile make up `n` items, and not before, while the abort hook answers no.
  pub await_n-puts :
      (n : ℕ) (xs : List A) (q : SizeNotifyQueue A)
      → q.size_ar ≡ none
      → (w : SizeNotifyQueue A) × (await_n false n q ≡ ok w)
        × ((puts xs w).items ≡ q.items ++ xs)
        × ((puts xs w).size_ar ≡ some (leb n (length q.items + length xs)))
  unfolding await_n check_and_fire
  await_n-puts n xs q free =
      let w : SizeNotifyQueue A =
        check_and_fire false (record q { size_ar = some false; await_number = n }) in
      let kept : w.items ≡ q.items = ground arith in
      let told = puts-IsTelling n xs w (ground arith) in
      let held = items-puts xs w ∙ ap (λ l. l ++ xs) kept in
      (
        w,
        ground (arith, free),
        held,
        told.1 ∙ ap (λ k. some (leb n k)) (ap length held ∙ length-append q.items xs),
      )
