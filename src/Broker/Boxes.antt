-- ===== src/Broker/Boxes.antt =====
-- The table of boxes of mbroker/mbroker.c: get_box, get_free_box, create_box and remove_box. A name
-- is the list of its bytes before the terminator.
use proj_so.Prelude.{
  ℕ, zero, suc, ◌+◌, Bool, true, false, not, ◌&&◌, List, [], ◌∷◌, Option, none, some, ◌==◌,
  if◌then◌else◌, take, update, find_index, ℤ, pos, negsuc, minus_one, is_minus_one, index, Outcome,
  M, ok, panic, fault, blocks, ◌>>=◌, ◌>>◌, pure, gets, modify,
}
use proj_so.Wire.Request.{box_name_length}
use proj_so.Fs.State.{Tfs}
use proj_so.Fs.Mutex.{Mutex}
use proj_so.Fs.Operations.{tfs_unlink}

-- box_t, less its lock and its condition variable.
pub record Box : Type 0 where
  pub box_name : List ℕ
  pub box_size : ℕ
  pub n_publishers : ℕ
  pub n_subscribers : ℕ

-- The static variables that boxes_lock guards, and the file system.
pub record Broker : Type 0 where
  pub num_boxes : ℤ
  pub boxes : ℕ → Box
  pub free_boxes : ℕ → Bool
  pub fs : Tfs

abbrev pub max_boxes : ℕ
max_boxes = 64

-- `strcmp(s, t) == 0`
unfoldable pub str_eq : List ℕ → List ℕ → Bool
str_eq [] [] = true
str_eq [] (d ∷ t) = false
str_eq (c ∷ s) [] = false
str_eq (c ∷ s) (d ∷ t) = c == d && str_eq s t

-- `num_boxes++` and `num_boxes--`
abbrev pub increment : ℤ → ℤ
increment (pos n) = pos (n + 1)
increment (negsuc zero) = pos 0
increment (negsuc (suc n)) = negsuc n

abbrev pub decrement : ℤ → ℤ
decrement (pos zero) = negsuc 0
decrement (pos (suc n)) = pos n
decrement (negsuc n) = negsuc (n + 1)

-- A call of the file system.
abbrev pub resume : {A : Type 0} → Broker → Outcome Tfs A → Outcome Broker A
resume s (ok a t) = ok a (record s { fs = t })
resume s panic = panic
resume s fault = fault
resume s blocks = blocks

abbrev pub on_fs : {A : Type 0} → M Tfs A → M Broker A
on_fs call s = resume s (call s.fs)

abbrev pub find_box : Broker → List ℕ → Option ℕ
find_box s box_name = find_index max_boxes (λ i. str_eq (s.boxes i).box_name box_name)

-- NULL is `none`, and the pointer to a box is its index.
unfoldable pub get_box : List ℕ → M Broker (Option ℕ)
get_box box_name = gets (λ s. find_box s box_name)

unfoldable pub get_free_box : M Broker ℤ
get_free_box s = elim (find_index max_boxes s.free_boxes) [
  | none ↦ ok minus_one s
  | some i ↦ ok (pos i) (record s { free_boxes = update s.free_boxes i false })
]

-- The box that create_box fills in.
abbrev pub new_box : List ℕ → Box
new_box box_name = record {
  box_name = take box_name_length box_name;
  box_size = 0;
  n_publishers = 0;
  n_subscribers = 0;
}

-- `memory` tells whether malloc provides the temporary box.
unfoldable pub create_box : Bool → List ℕ → M Broker ℤ
create_box memory box_name = if not memory then pure minus_one else (do
  modify (λ s. record s { num_boxes = increment s.num_boxes })
  box_id ← get_free_box
  if is_minus_one box_id then pure minus_one else (do
    modify (λ s. record s { boxes = update s.boxes (index box_id) (new_box box_name) })
    pure (pos 0)))

abbrev pub no_box : Box
no_box = record { box_name = []; box_size = 0; n_publishers = 0; n_subscribers = 0 }

unfoldable pub remove_box : Mutex → List ℕ → M Broker ℤ
remove_box mutex box_name = do
  slot ← gets (λ s. find_box s box_name)
  elim slot [
    | none ↦ pure minus_one
    | some i ↦ (do
      modify (λ s. record s { free_boxes = update s.free_boxes i true })
      box ← gets (λ s. s.boxes i)
      code ← on_fs (tfs_unlink mutex box.box_name)
      if is_minus_one code then pure minus_one else (do
        modify
            (λ s. record s { boxes = update s.boxes i no_box; num_boxes = decrement s.num_boxes })
        pure (pos 0)))
  ]
