-- ===== src/Rtm/Close/Membership.antt =====
-- The channels as their users see them: who is in which channel under which id. The abstract machine
-- has one event for each step of the histories; it knows nothing of connections, callbacks,
-- configurations, locks and pipelines.
use kwmserver.Base.{
  Bool, true, false, ◌&&◌, ◌||◌, List, [], ◌∷◌, String, Ptr, nil, ◌==◌, nat_beq, nat_eq, string_eq,
  if◌then◌else◌, Option, none, some, ◌≡◌, ◌⊎◌, inl, inr, sym, ◌∙◌, arith, eq_iff,
}
use kwmserver.Rtm.World.{ClosedFunc, channel_remove, pipeline_closed}

abbrev pub Membership : Type 0
Membership = Ptr → String → Option Ptr

-- `made p` is a new channel p, `gone cbs` a closing connection with these callbacks.
pub data Event : Type 0 where
  keeps : Event
  made : Ptr → Event
  joins : Ptr → String → Ptr → Event
  leaves : Ptr → String → Event
  gone : List ClosedFunc → Event

-- Does one of the callbacks take the connection d from the id in the channel?
abbrev pub takes : Ptr → String → Ptr → List ClosedFunc → Bool
takes p id d [] = false
takes p id d (channel_remove q j c ∷ cbs) =
    (nat_beq p q && (id == j && (c == nil || d == c))) || takes p id d cbs
takes p id d (pipeline_closed pipe ∷ cbs) = takes p id d cbs

abbrev pub Same : Membership → Membership → Type 0
Same m n = (q : Ptr) (j : String) → n q j ≡ m q j

-- The entry of one id in one channel is this afterwards, and the others stay.
abbrev pub Entry : Ptr → String → Option Ptr → Membership → Membership → Type 0
Entry p id x m n = (q : Ptr) (j : String) → n q j ≡ (if nat_beq p q && id == j then x else m q j)

-- An entry that stays, or whose connection the callbacks take.
abbrev pub Taken : List ClosedFunc → Ptr → String → Option Ptr → Option Ptr → Type 0
Taken cbs q j old new =
    (new ≡ old) ⊎ ((new ≡ none) × ((d : Ptr) × ((old ≡ some d) × (takes q j d cbs ≡ true))))

-- What an event may do: a new channel is empty; a joining puts one connection under one id, or is
-- refused and changes nothing; so is a leaving; and a closing connection takes out of the channels
-- only what its callbacks name.
abbrev pub Moves : Event → Membership → Membership → Type 0
Moves keeps m n = Same m n
Moves (made p) m n = (q : Ptr) (j : String) → n q j ≡ (if nat_beq p q then none else m q j)
Moves (joins p id conn) m n = Same m n ⊎ Entry p id (some conn) m n
Moves (leaves p id) m n = Same m n ⊎ Entry p id none m n
Moves (gone cbs) m n = (q : Ptr) (j : String) → Taken cbs q j (m q j) (n q j)

-- A history of events, the latest first.
pub data Runs (m : Membership) : List Event → Membership → Type 0 where
  start : Runs m [] m
  then_moves :
      {es : List Event} {k n : Membership} (e : Event)
      → Runs m es k
      → Moves e k n
      → Runs m (e ∷ es) n

-- Is there a joining of this connection under this id in this channel?
abbrev pub has_joined : Ptr → String → Ptr → List Event → Bool
has_joined p id conn [] = false
has_joined p id conn (joins q j c ∷ es) =
    (nat_beq p q && (id == j && conn == c)) || has_joined p id conn es
has_joined p id conn (keeps ∷ es) = has_joined p id conn es
has_joined p id conn (made q ∷ es) = has_joined p id conn es
has_joined p id conn (leaves q j ∷ es) = has_joined p id conn es
has_joined p id conn (gone cbs ∷ es) = has_joined p id conn es

-- Who is in a channel at the end was there before the last event, or has joined by it.
Moves-joined :
    (e : Event) (es : List Event) (m n : Membership) (p : Ptr) (id : String) (conn : Ptr)
    → Moves e m n
    → (m p id ≡ some conn → has_joined p id conn es ≡ true)
    → n p id ≡ some conn
    → has_joined p id conn (e ∷ es) ≡ true
Moves-joined keeps es m n p id conn same ih h = ih (sym (same p id) ∙ h)
Moves-joined (made q) es m n p id conn new ih h = ground (arith, new p id, ih)
Moves-joined (joins q j c) es m n p id conn (inl same) ih h =
    ground (arith, ih (sym (same p id) ∙ h))
Moves-joined (joins q j c) es m n p id conn (inr entry) ih h =
    ground (arith, entry p id, ih, eq_iff j id, eq_iff id j)
Moves-joined (leaves q j) es m n p id conn (inl same) ih h = ih (sym (same p id) ∙ h)
Moves-joined (leaves q j) es m n p id conn (inr entry) ih h = ground (arith, entry p id, ih)
Moves-joined (gone cbs) es m n p id conn taken ih h = elim (taken p id) [
  | inl same ↦ ih (sym same ∙ h)
  | inr (out, rest) ↦ absurd (ground (arith, out))
]

-- Nobody is in a channel but by joining it under that id.
pub Runs-joined :
    {m n : Membership} {es : List Event} (p : Ptr) (id : String) (conn : Ptr)
    → Runs m es n
    → m p id ≡ none
    → n p id ≡ some conn
    → has_joined p id conn es ≡ true
Runs-joined p id conn start empty h = absurd (ground arith)
Runs-joined {m} {n} p id conn (then_moves {es} {k} e r s) empty h =
    Moves-joined e es k n p id conn s (λ before. Runs-joined p id conn r empty before) h
