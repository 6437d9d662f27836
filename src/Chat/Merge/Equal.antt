-- ===== src/Chat/Merge/Equal.antt =====
-- useChatState.ts: two messages with the same JSON text are the same message.
use ivena_meet.Base.{
  and_split, Text, text_eq_iff, ℤ, eqb_ℤ_iff, nat_eq, text_eq_instance, whole_eq, bool_eq,
  option_beq_iff, option_eq, same_refl, ℕ, ◌≡◌, Bool, true, ◌&&◌, Option, arith,
}
use ivena_meet.Types.{Role, Opt, role_eq_iff, role_eq_instance, opt_beq_iff, opt_eq, MessageItem}
use ivena_meet.Chat.Message.{same_sender, same_content, same_marks, same_message}

same_sender-eq :
    (a b : MessageItem)
    → same_sender a b ≡ true
    → (a.id ≡ b.id)
      × (a.room_id ≡ b.room_id)
      × (a.user_name ≡ b.user_name)
      × (a.nickname ≡ b.nickname)
      × (a.role ≡ b.role)
unfolding same_sender
same_sender-eq a b h = ground (
  arith,
  eqb_ℤ_iff a.id b.id,
  text_eq_iff a.room_id b.room_id,
  text_eq_iff a.user_name b.user_name,
  text_eq_iff a.nickname b.nickname,
  role_eq_iff a.role b.role,
)

same_content-eq :
    (a b : MessageItem)
    → same_content a b ≡ true
    → (a.avatar_url ≡ b.avatar_url) × (a.client_id ≡ b.client_id) × (a.text ≡ b.text)
unfolding same_content
same_content-eq a b h = ground (
  arith,
  opt_beq_iff a.avatar_url b.avatar_url,
  opt_beq_iff a.client_id b.client_id,
  text_eq_iff a.text b.text,
)

same_marks-eq :
    (a b : MessageItem)
    → same_marks a b ≡ true
    → (a.created_at ≡ b.created_at) × (a.pending ≡ b.pending) × (a.failed ≡ b.failed)
unfolding same_marks
same_marks-eq a b h =
    ground (arith, option_beq_iff a.pending b.pending, option_beq_iff a.failed b.failed)

pub same_message-eq : (a b : MessageItem) → same_message a b ≡ true → a ≡ b
unfolding same_message
same_message-eq a b h =
    let (p, q) = and_split (same_sender a b) (same_content a b && same_marks a b) h in
    let (r, t) = and_split (same_content a b) (same_marks a b) q in
    let (e1, e2, e3, e4, e5) = same_sender-eq a b p in
    let (e6, e7, e8) = same_content-eq a b r in
    let (e9, e10, e11) = same_marks-eq a b t in
    λ i. record {
      id = e1 i;
      room_id = e2 i;
      user_name = e3 i;
      nickname = e4 i;
      avatar_url = e6 i;
      role = e5 i;
      client_id = e7 i;
      text = e8 i;
      created_at = e9 i;
      pending = e10 i;
      failed = e11 i;
    }

pub same_message_refl : (a : MessageItem) → same_message a a ≡ true
unfolding same_message
same_message_refl a = simp (
  same_refl {A = ℤ} a.id,
  same_refl {A = Text} a.room_id,
  same_refl {A = Text} a.user_name,
  same_refl {A = Text} a.nickname,
  same_refl {A = Opt Text} a.avatar_url,
  same_refl {A = Role} a.role,
  same_refl {A = Opt Text} a.client_id,
  same_refl {A = Text} a.text,
  same_refl {A = ℕ} a.created_at,
  same_refl {A = Option Bool} a.pending,
  same_refl {A = Option Bool} a.failed,
)
