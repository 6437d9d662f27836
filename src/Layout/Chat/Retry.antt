-- ===== src/Layout/Chat/Retry.antt =====
-- Layout.tsx: a failed message that is sent again, and fails again.
use mathlib.Core.Option
use ivena_meet.Base.{
  if◌then◌else◌, Bool-cases, length, get_elem?, text_eq, trim, is_empty, Text, eqb_ℤ_iff,
  text_eq_instance, same_refl, ℕ, zero, suc, ◌≡◌, refl, sym, ap, ◌∙◌, subst, ◌≢◌, ◌⊎◌, inl, inr,
  true, false, Option, some, List, [], ◌∷◌, map, arith,
}
use ivena_meet.Types.{Role, Opt, present, opt_eq, MessageItem, RealtimeChatPayload}
use ivena_meet.Layout.Chat.{
  LayoutProps, LayoutChat, realtime_payload, message_failed, is_target, sent_again, null_if_absent,
  retry_failed_chat_message,
}
use ivena_meet.Layout.Chat.Upsert.{has_client-text_eq}
use ivena_meet.Chat.Message.{client_of, has_client}
use ivena_meet.Chat.Merge.Tracking.{count_client, Text-cases}

abbrev pub failed_again : Text → ℕ → MessageItem → MessageItem
failed_again client_id seconds m = record m {
  client_id = present client_id;
  created_at = seconds;
  pending = some false;
  failed = some true;
}

-- The list after the retry, and after its failure.
abbrev pub retried : MessageItem → Text → ℕ → List MessageItem → List MessageItem
retried target c seconds ms = map (λ m. if is_target target m then sent_again c seconds m else m) ms

abbrev pub failed_list : MessageItem → Text → ℕ → List MessageItem → List MessageItem
failed_list target c seconds ms =
    map (λ m. if is_target target m then failed_again c seconds m else m) ms

has_client-sent_again :
    (c : Text) (seconds : ℕ) (m : MessageItem) → has_client c (sent_again c seconds m) ≡ true
unfolding has_client
has_client-sent_again c seconds m = same_refl {A = Opt Text} (present c)

fail_one :
    (target : MessageItem) (c : Text) (seconds : ℕ) (m : MessageItem)
    → has_client c m ≡ false
    → let r = if is_target target m then sent_again c seconds m else m in
      (if has_client c r then record r { pending = some false; failed = some true } else r)
      ≡ (if is_target target m then failed_again c seconds m else m)
fail_one target c seconds m h = elim (Bool-cases (is_target target m)) [
  | inl e ↦ rw (e, has_client-sent_again c seconds m) refl
  | inr e ↦ rw (e, h) refl
]

fail_all :
    (target : MessageItem) (c : Text) (seconds : ℕ) (ms : List MessageItem)
    → c ≢ []
    → count_client c ms ≡ 0
    → map
        (λ r. if has_client c r then record r { pending = some false; failed = some true } else r)
        (retried target c seconds ms)
      ≡ failed_list target c seconds ms
fail_all target c seconds [] n h = refl
fail_all target c seconds (m ∷ ms) n h =
    let e : text_eq (client_of m) c ≡ false = ground (arith, h) in
    let rest : count_client c ms ≡ 0 = ground (arith, h) in
    λ i.
      fail_one target c seconds m (has_client-text_eq c m n ∙ e) i
      ∷ fail_all target c seconds ms n rest i

-- Which messages of the list a target stands for: those of its client id, or without one those of its
-- identifier.
abbrev pub StandsFor : MessageItem → MessageItem → Type 0
StandsFor target m =
    ((client_of target ≢ []) × (m.client_id ≡ present (client_of target)))
    ⊎ ((client_of target ≡ []) × (m.id ≡ target.id))

is_target_cases :
    (target m : MessageItem)
    → (StandsFor target m × (is_target target m ≡ true))
      ⊎ (¬ StandsFor target m × (is_target target m ≡ false))
unfolding is_target has_client is_empty
is_target_cases target m =
    let c = opt_eq.beq_iff m.client_id (present (client_of target)) in
    ground (arith, c, eqb_ℤ_iff m.id target.id, Text-cases (client_of target))

length-failed_list :
    (target : MessageItem) (c : Text) (seconds : ℕ) (ms : List MessageItem)
    → length (failed_list target c seconds ms) ≡ length ms
length-failed_list target c seconds [] = refl
length-failed_list target c seconds (m ∷ ms) = ap suc (length-failed_list target c seconds ms)

get_elem?-failed_list :
    (target : MessageItem) (c : Text) (seconds : ℕ) (ms : List MessageItem) (i : ℕ)
    → (m : MessageItem) → get_elem? ms i ≡ some m
    → get_elem? (failed_list target c seconds ms) i
      ≡ some (if is_target target m then failed_again c seconds m else m)
get_elem?-failed_list target c seconds [] i m h = ground (arith, h)
get_elem?-failed_list target c seconds (n ∷ ms) zero m h =
    ap (Option.map (λ r. if is_target target r then failed_again c seconds r else r)) h
get_elem?-failed_list target c seconds (n ∷ ms) (suc i) m h =
    get_elem?-failed_list target c seconds ms i m h

-- The message that the list shows at a place, after the retry has failed.
abbrev pub FailsAgain : MessageItem → Text → ℕ → MessageItem → Option MessageItem → Type 0
FailsAgain target c seconds m now =
    (StandsFor target m × (now ≡ some (failed_again c seconds m)))
    ⊎ (¬ StandsFor target m × (now ≡ some m))

failed_list-FailsAgain :
    (target : MessageItem) (c : Text) (seconds : ℕ) (ms : List MessageItem) (i : ℕ)
    → (m : MessageItem) → get_elem? ms i ≡ some m
    → FailsAgain target c seconds m (get_elem? (failed_list target c seconds ms) i)
failed_list-FailsAgain target c seconds ms i m at =
    let e = get_elem?-failed_list target c seconds ms i m at in
    elim (is_target_cases target m) [
      | inl (p, h) ↦ inl (p, e ∙ rw h refl)
      | inr (p, h) ↦ inr (p, e ∙ rw h refl)
    ]

-- A failed message is sent again under a client id that no message has, by a session with a room and
-- a name, and cannot be stored either. The payload that was sent carries the new id and the message's
-- trimmed text. The list is as long as before. A message at any place is marked as failed again, with
-- the new id and time, if it has the client id of the target, or, where the target has none, its
-- identifier; every other message is as before.
pub retry-message_failed :
    (p : LayoutProps) (role : Role) (target : MessageItem) (c : Text) (seconds : ℕ) (s : LayoutChat)
    → p.session ≡ some role
    → target.failed ≡ some true
    → is_empty (trim target.text) ≡ false
    → is_empty (trim p.room_id) ≡ false
    → is_empty (trim p.user_name) ≡ false
    → c ≢ []
    → count_client c s.messages ≡ 0
    → (i : ℕ) (m : MessageItem) → get_elem? s.messages i ≡ some m
    → (payload : RealtimeChatPayload) × (t : LayoutChat) × (retry_failed_chat_message p target c
          seconds s
        ≡ some (payload, t))
      × (payload.client_id ≡ c)
      × (payload.text ≡ trim target.text)
      × (length (message_failed c t).messages ≡ length s.messages)
      × FailsAgain target c seconds m (get_elem? (message_failed c t).messages i)
unfolding retry_failed_chat_message message_failed
retry-message_failed p role target c seconds s joined failed body room name n fresh i m at =
    let e = fail_all target c seconds s.messages n fresh in
    let now = failed_list-FailsAgain target c seconds s.messages i m at in
    (
      realtime_payload p role c (trim target.text) (null_if_absent target.avatar_url) seconds,
      record s { messages = retried target c seconds s.messages },
      rw (joined, failed, body, room, name) refl,
      refl,
      refl,
      ap length e ∙ length-failed_list target c seconds s.messages,
      subst (λ (l : List MessageItem). FailsAgain target c seconds m (get_elem? l i)) (sym e) now,
    )
