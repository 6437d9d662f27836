-- ===== src/Chat/Merge/Retry.antt =====
-- `mergeMessages` with one message: where it is found afterwards, and what a second merge does.
use ivena_meet.Base.{
  Bool-cases, Option-cases, length, get_elem?, set, get_elem?-lt, get_elem?-of_lt,
  get_elem?-set_self, get_elem?-append_last, is_empty, nat_eq, text_eq_instance, whole_eq, bool_eq,
  option_eq, ℕ, ◌<◌, ◌≡◌, refl, sym, subst, ◌≢◌, inl, inr, false, some, List, [], ◌∷◌, arith,
}
use ivena_meet.Types.{role_eq_instance, opt_eq, Opt-cases, MessageItem}
use ivena_meet.Chat.Message.{
  or_false, normalize_message, client_of, merged, same_message, sort_messages,
}
use ivena_meet.Chat.Merge.{
  get, Merging, target_of, append_message, write_message, replace_message, merge_one, merge_all,
  start, merge_messages,
}
use ivena_meet.Chat.Merge.Equal.{same_message-eq, same_message_refl}
use ivena_meet.Chat.Merge.Position.{find_client, sort_messages-Position, find_client_at}
use ivena_meet.Chat.Merge.Range.{InRange, start-InRange, target_of-lt}
use ivena_meet.Chat.Merge.Unique.{Tracked, start-Tracked}
use ivena_meet.Chat.Merge.Laws.{merge_messages-UniqueClients}
use ivena_meet.Chat.Merge.Tracking.{UniqueClients, Text-cases}

-- What a message shows of the item that was merged into it last.
pub record Carries (item w : MessageItem) : Type 0 where
  pub id : w.id ≡ item.id
  pub client : client_of w ≡ client_of item
  pub text : w.text ≡ item.text
  pub created_at : w.created_at ≡ item.created_at
  pub pending : w.pending ≡ some (or_false item.pending)
  pub failed : w.failed ≡ some (or_false item.failed)

-- Where the item now stands, and that merging it there once more changes nothing.
record Settled (item : MessageItem) (ms : List MessageItem) : Type 0 where
  shown : MessageItem
  place : ℕ
  at : get_elem? ms place ≡ some shown
  carries : Carries item shown
  stable : merged shown (normalize_message item) ≡ shown

normalized-Carries : (item : MessageItem) → Carries item (normalize_message item)
unfolding normalize_message
normalized-Carries item = ground arith

normalized_stable :
    (item : MessageItem)
    → merged (normalize_message item) (normalize_message item) ≡ normalize_message item
unfolding normalize_message merged
normalized_stable item = ground arith

merged-Carries :
    (item prev : MessageItem)
    → client_of item ≢ []
    → Carries item (merged prev (normalize_message item))
unfolding normalize_message merged
merged-Carries item prev n = ground (arith, Opt-cases item.client_id)

merged_stable :
    (item prev : MessageItem)
    → let n = normalize_message item in merged (merged prev n) n ≡ merged prev n
unfolding normalize_message merged
merged_stable item prev = ground arith

kept-Settled :
    (item prev : MessageItem) (ms : List MessageItem) (i : ℕ)
    → client_of item ≢ []
    → get_elem? ms i ≡ some prev
    → prev ≡ merged prev (normalize_message item)
    → Settled item ms
kept-Settled item prev ms i n at e = record {
  shown = prev;
  place = i;
  at = at;
  carries = subst (Carries item) (sym e) (merged-Carries item prev n);
  stable = sym e;
}

written-Settled :
    (item prev : MessageItem) (ms : List MessageItem) (i : ℕ)
    → client_of item ≢ []
    → i < length ms
    → Settled item (set ms i (merged prev (normalize_message item)))
written-Settled item prev ms i n lt = record {
  shown = merged prev (normalize_message item);
  place = i;
  at = get_elem?-set_self ms i _ lt;
  carries = merged-Carries item prev n;
  stable = merged_stable item prev;
}

merge_one-Settled :
    (s : Merging) (item : MessageItem)
    → InRange s
    → client_of item ≢ []
    → Settled item (merge_one s item).next
unfolding merge_one append_message replace_message write_message
merge_one-Settled s item r n = elim (Option-cases (target_of s (normalize_message item))) [
  | inl e ↦
      rw (e, merge_one)
        (record {
          shown = normalize_message item;
          place = length s.next;
          at = get_elem?-append_last s.next (normalize_message item);
          carries = normalized-Carries item;
          stable = normalized_stable item;
        })
  | inr (i, e) ↦
      let (prev, at) = get_elem?-of_lt s.next i (target_of-lt s (normalize_message item) i r e) in
      elim (Bool-cases (same_message prev (merged prev (normalize_message item)))) [
        | inl kept ↦
            rw (e, merge_one, at, kept)
              (kept-Settled item prev s.next i n at (same_message-eq _ _ kept))
        | inr other ↦
            rw (e, merge_one, at, other)
              (written-Settled item prev s.next i n (get_elem?-lt s.next i at))
      ]
]

sort-Settled :
    (item : MessageItem) (ms : List MessageItem) → Settled item ms → Settled item (sort_messages ms)
sort-Settled item ms w =
    let (j, e) = sort_messages-Position w.shown ms w.place w.at in
    record { shown = w.shown; place = j; at = e; carries = w.carries; stable = w.stable }

-- A round that sets no flag has left the list as it was.
pub merge_one-unchanged :
    (s : Merging) (item : MessageItem) → (merge_one s item).changed ≡ false → (merge_one s item) ≡ s
unfolding merge_one append_message replace_message write_message
merge_one-unchanged s item h = ground arith

merge_messages-Settled :
    (base : List MessageItem) (item : MessageItem)
    → client_of item ≢ []
    → Settled item (merge_messages base (item ∷ []))
unfolding merge_messages merge_all
merge_messages-Settled base item n =
    let s = merge_one (start base) item in
    let w = merge_one-Settled (start base) item (start-InRange base) n in
    elim (Bool-cases s.changed) [
      | inl e ↦ rw e (sort-Settled item s.next w)
      | inr e ↦
          rw e (
            subst (λ (t : Merging). Settled item t.next) (merge_one-unchanged (start base) item e)
              w)
    ]

-- After a message with a client id is merged, the first entry of that client id shows what the
-- message carries: its identifier, text, time and marks; no client id must have stood twice before.
pub merge_messages-find_client :
    (base : List MessageItem) (item : MessageItem)
    → UniqueClients base
    → client_of item ≢ []
    → (w : MessageItem) × (find_client (client_of item) (merge_messages base (item ∷ [])) ≡ some w)
      × Carries item w
merge_messages-find_client base item u n =
    let w = merge_messages-Settled base item n in
    let all = merge_messages-UniqueClients base (item ∷ []) u in
    let c = w.carries.client in
    (
      w.shown,
      subst (λ k. find_client k (merge_messages base (item ∷ [])) ≡ some w.shown) c
          (find_client_at _ w.place w.shown all (rw c n) w.at),
      w.carries,
    )

normalized_client : (item : MessageItem) → client_of (normalize_message item) ≡ client_of item
unfolding normalize_message
normalized_client item = refl

-- A tracked client id is found before any identifier is looked up.
target_of_client :
    (s : Merging) (n : MessageItem) (i : ℕ)
    → client_of n ≢ []
    → get (client_of n) s.by_client_id ≡ some i
    → target_of s n ≡ some i
unfolding target_of is_empty
target_of_client s n i ne h = ground (arith, Text-cases (client_of n))

merge_one_stable :
    (s : Merging) (item : MessageItem)
    → Tracked s
    → client_of item ≢ []
    → Settled item s.next
    → merge_one s item ≡ s
unfolding merge_one replace_message
merge_one_stable s item t n w =
    let c = normalized_client item in
    let e : get (client_of (normalize_message item)) s.by_client_id ≡ some w.place =
      rw (c, ← w.carries.client) (t w.place w.shown w.at (rw w.carries.client n)) in
    let k = target_of_client s (normalize_message item) w.place (rw c n) e in
    rw (k, merge_one, w.at, w.stable, same_message_refl w.shown)

merge_messages_stable :
    (ms : List MessageItem) (item : MessageItem)
    → UniqueClients ms
    → client_of item ≢ []
    → Settled item ms
    → merge_messages ms (item ∷ []) ≡ ms
unfolding merge_messages merge_all
merge_messages_stable ms item u n w = rw (merge_one_stable (start ms) item (start-Tracked ms u) n w)

-- Merging the same message with a client id again changes nothing, provided that no client id stood
-- twice before.
pub merge_messages_idem :
    (base : List MessageItem) (item : MessageItem)
    → UniqueClients base
    → client_of item ≢ []
    → merge_messages (merge_messages base (item ∷ [])) (item ∷ []) ≡ merge_messages base (item ∷ [])
merge_messages_idem base item u n =
    merge_messages_stable (merge_messages base (item ∷ [])) item
      (merge_messages-UniqueClients base (item ∷ []) u) n (merge_messages-Settled base item n)
