-- ===== src/Clients/Listing.antt =====
-- The answers to a list request, from the broker's session to the manager.
use proj_so.Prelude.{
  ℕ, zero, suc, ◌+◌, ◌<◌, ◌≤◌, ◌≡◌, refl, sym, ap, subst, ◌∙◌, List, [], ◌∷◌, ◌++◌, arith, length,
  drop, drop-append_left, ℤ, pos, Outcome, ok, map, replicate, inl, inr, Bool-cases,
}
use proj_so.Wire.System.{System, ReadAnswer, WriteAnswer, Accepts, Delivers}
use proj_so.Wire.Request.{op_list_boxes}
use proj_so.Wire.Serve.{All}
use proj_so.Broker.Boxes.{Broker, max_boxes}
use proj_so.Server.State.{Calls, Server}
use proj_so.Server.Listing.{handle_tfs_list_boxes}
use proj_so.Server.ListAnswer.{
  boxes_in_use, in_use, Named, answer_frames, answer_length, list_boxes_answers,
}
use proj_so.Server.Sending.{to_pipe}
use proj_so.Clients.Manager.{Library, print_sorted, list_boxes}
use proj_so.Clients.Rows.{pieces_all, IsListable, list_boxes-answers}

-- The buffers that went out between two states.
abbrev pub sent_since : Server → Server → List (List ℕ)
sent_since s s' = map (λ (w : ℤ × List ℕ). w.1) (drop (length s.system.sent) s'.system.sent)

buffers_of : (fd : ℤ) (fs : List (List ℕ)) → map (λ (w : ℤ × List ℕ). w.1) (to_pipe fd fs) ≡ fs
buffers_of fd [] = refl
buffers_of fd (f ∷ fs) = ap (λ r. f ∷ r) (buffers_of fd fs)

pub sent_since-append :
    (s s' : Server) (fd : ℤ) (fs : List (List ℕ))
    → s'.system.sent ≡ s.system.sent ++ to_pipe fd fs
    → sent_since s s' ≡ fs
sent_since-append s s' fd fs e =
    ap
      (λ (sent : List (ℤ × List ℕ)).
        map (λ (w : ℤ × List ℕ). w.1) (drop (length s.system.sent) sent))
      e
    ∙ ap (map (λ (w : ℤ × List ℕ). w.1))
        (drop-append_left (length s.system.sent) s.system.sent (to_pipe fd fs) refl)
    ∙ buffers_of fd fs

state_of : {S A : Type 0} → S → Outcome S A → S
state_of s (ok a t) = t
state_of s _ = s

length-boxes_in_use : (t : Broker) (left i : ℕ) → length (boxes_in_use t left i) ≤ left
unfolding boxes_in_use
length-boxes_in_use t zero i = omega arith
length-boxes_in_use t (suc left) i = elim (Bool-cases (t.free_boxes i)) [
  | inl e ↦ rw e (omega (arith, length-boxes_in_use t left (i + 1)))
  | inr e ↦ rw e (omega (arith, length-boxes_in_use t left (i + 1)))
]

-- When handle_tfs_list_boxes has run, in a broker with a box in use whose counter is right, with names
-- and numbers that fit, over a pipe that opens, takes all writes and closes, and the manager's reads
-- give what was sent, piece by piece with any interruptions between, then list_boxes of the manager
-- prints the boxes in use, each once, with their numbers, in the order into which qsort puts them by
-- compare_boxes.
pub manager_lists_boxes :
    (library : Library) (calls : Calls) (s s' : Server) (c p k fuel : ℕ) (os cs : List ℤ)
    (left : List WriteAnswer) (y : System) (rest : List ReadAnswer)
    → (s.clients c).opcode ≡ op_list_boxes
    → s.broker.num_boxes ≡ pos (length (in_use s.broker))
    → 0 < length (in_use s.broker)
    → Named s.broker
    → All IsListable (in_use s.broker)
    → s.system.opens ≡ pos p ∷ os
    → s.system.closes ≡ pos k ∷ cs
    → Accepts s.system.writes (replicate (length (in_use s.broker)) answer_length) left
    → handle_tfs_list_boxes calls c s ≡ ok (pos 0) s'
    → Delivers y.reads (pieces_all (sent_since s s')) rest
    → max_boxes < fuel
    → list_boxes library fuel y
      ≡ ok (print_sorted library (in_use s.broker)) (record y { reads = rest })
unfolding state_of
manager_lists_boxes library calls s s' c p k fuel os cs left y rest op num some_box named listable
      open_ok close_ok accepted run d enough =
    let (t, run', _, sent) =
      list_boxes_answers calls s c p k os cs left op num some_box named open_ok close_ok accepted in
    let same : s' ≡ t = ap (state_of s) (sym run ∙ run') in
    let frames : sent_since s s' ≡ answer_frames (in_use s.broker) =
      sent_since-append s s' (pos p) (answer_frames (in_use s.broker))
        (ap (λ (u : Server). u.system.sent) same ∙ sent) in
    let few = length-boxes_in_use s.broker max_boxes 0 in
    list_boxes-answers library (in_use s.broker) fuel y rest some_box listable few (omega arith)
      (subst (λ (f : List (List ℕ)). Delivers y.reads (pieces_all f) rest) frames d)
