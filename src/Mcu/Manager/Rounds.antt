-- ===== src/Mcu/Manager/Rounds.antt =====
-- GetConnection and the attach transactions of signaling/mcu/manager.go and handlers.go.
use kwmserver.Base.{
  ℕ, zero, suc, ◌+◌, String, Bool, true, false, not, ◌&&◌, ◌||◌, Option, none, some, List, [], ◌∷◌,
  ◌++◌, lookup, lookup-insert, ◌==◌, nat_eq, string_eq, if◌then◌else◌, Ptr, nil, mem_ptr, count_ptr,
  length, ◌≡◌, ◌≢◌, refl, sym, ap, ◌∙◌, arith, eq_iff, string_eq_refl, append_assoc, Bool-cases,
  Option-cases, inl, inr,
}
use kwmserver.Mcu.Manager.{
  Manager, AttachedRecord, get_connection, successor, front, handle_websocket_connect, not_found,
  attached_to, accept_record, attach_record,
}

-- No pointer twice
abbrev pub is_simple : List Ptr → Bool
is_simple [] = true
is_simple (x ∷ xs) = not (mem_ptr x xs) && is_simple xs

-- The connections that the next `n` calls of GetConnection choose.
unfoldable pub chosen : ℕ → Manager → List (Option Ptr)
chosen zero m = []
chosen (suc n) m = (get_connection m).0 ∷ chosen n (get_connection m).1

abbrev pub all_some : List Ptr → List (Option Ptr)
all_some [] = []
all_some (x ∷ xs) = some x ∷ all_some xs

successor-after :
    (before : List Ptr) (c : Ptr) (after : List Ptr)
    → is_simple (before ++ c ∷ after) ≡ true
    → successor c (before ++ c ∷ after) ≡ front after
successor-after [] c after h = ground arith
successor-after (b ∷ before) c after h =
    ground
      (arith, successor-after before c after, kwmserver.Base.mem_ptr-append b before (c ∷ after))

chosen-after :
    (before : List Ptr) (c : Ptr) (after : List Ptr) (m : Manager)
    → m.connections ≡ before ++ c ∷ after
    → is_simple m.connections ≡ true
    → m.current ≡ some c
    → chosen (length after) m ≡ all_some after
unfolding chosen get_connection
chosen-after before c [] m e h k = refl
chosen-after before c (d ∷ after) m e h k =
    let s : successor c m.connections ≡ some d =
      rw e (successor-after before c (d ∷ after) (rw (← e) h)) in
    let rest =
      chosen-after (before ++ c ∷ []) d after (record m { current = some d })
        (e ∙ sym (append_assoc before (c ∷ []) (d ∷ after))) h refl in
    rw (k, s) (ap (λ l. some d ∷ l) rest)

chosen-start :
    (xs : List Ptr) (m : Manager)
    → m.connections ≡ xs
    → is_simple m.connections ≡ true
    → m.current ≡ none
    → chosen (length xs) m ≡ all_some xs
unfolding chosen get_connection
chosen-start [] m e h k = refl
chosen-start (x ∷ xs) m e h k =
    let f : front m.connections ≡ some x = ap front e in
    let rest = chosen-after [] x xs (record m { current = some x }) e h refl in
    rw (k, f) (ap (λ l. some x ∷ l) rest)

-- From a fresh start and while no connection comes or goes, as many calls of GetConnection as there
-- are connections choose each of them once, in the order of the list.
pub chosen_in_turn :
    (m : Manager)
    → is_simple m.connections ≡ true
    → m.current ≡ none
    → chosen (length m.connections) m ≡ all_some m.connections
chosen_in_turn m h k = chosen-start m.connections m refl h k

accepted_lem :
    (conn : Ptr) (up : Bool) (t : String) (m : Manager)
    → t ≢ ""
    → handle_websocket_connect conn up t m ≡ accept_record conn up t (lookup t m.attached) m
unfolding handle_websocket_connect
accepted_lem conn up t m filled = ground (arith, eq_iff t "")

accept_record-once :
    (conn other : Ptr) (up again : Bool) (t : String) (o : Option AttachedRecord) (m : Manager)
    → (accept_record conn up t o m).0 ≡ attached_to conn t
    → (accept_record other again t
        (lookup t (accept_record conn up t o m).1.attached)
        (accept_record conn up t o m).1).0
      ≡ not_found
accept_record-once conn other up again t none m h = absurd (ground arith)
accept_record-once conn other up again t (some r) m h =
    ground (arith, lookup-insert t t (attach_record conn r) m.attached, string_eq_refl t)

-- An attach transaction is good for one connection: after one was attached by it, the next is
-- answered as not found.
pub attached_once :
    (conn other : Ptr) (up again : Bool) (t : String) (m : Manager)
    → t ≢ ""
    → (handle_websocket_connect conn up t m).0 ≡ attached_to conn t
    → (handle_websocket_connect other again t (handle_websocket_connect conn up t m).1).0
      ≡ not_found
attached_once conn other up again t m filled h =
    let first = accepted_lem conn up t m filled in
    let m' = (accept_record conn up t (lookup t m.attached) m).1 in
    rw (first, accepted_lem other again t m' filled)
      (accept_record-once conn other up again t (lookup t m.attached) m (rw (← first) h))
