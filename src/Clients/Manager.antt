-- ===== src/Clients/Manager.antt =====
-- list_boxes and compare_boxes of manager/manager.c.
use proj_so.Prelude.{
  ℕ, zero, suc, not, List, [], ◌∷◌, ◌++◌, ◌==◌, if◌then◌else◌, length, ltb, get_or, ℤ, M, fault,
  blocks, pure,
}
use proj_so.Wire.System.{System, read_pipe}
use proj_so.Wire.Text.{text_of}
use proj_so.Wire.Numbers.{from_le}
use proj_so.Wire.Request.{box_name_length, op_list_boxes_answer}
use proj_so.Broker.Boxes.{Box, max_boxes}

-- What list_boxes does: it returns -1, it prints that there are no boxes, or it prints these.
pub data Listed : Type 0 where
  failed : Listed
  no_boxes_found : Listed
  printed : List Box → Listed

-- compare_boxes, over strcasecmp.
abbrev pub compare_boxes : (List ℕ → List ℕ → ℤ) → Box → Box → ℤ
compare_boxes strcasecmp a b = strcasecmp a.box_name b.box_name

-- The calls of the C library: qsort with a comparison, and strcasecmp.
pub record Library : Type 0 where
  pub qsort : (Box → Box → ℤ) → List Box → List Box
  pub strcasecmp : List ℕ → List ℕ → ℤ

abbrev pub print_sorted : Library → List Box → Listed
print_sorted library rows = printed (library.qsort (compare_boxes library.strcasecmp) rows)

abbrev pub u64_size : ℕ
u64_size = 8

-- The three numbers of a box, and the row for it.
abbrev pub read_counters : List ℕ → (Box → M System Listed) → M System Listed
read_counters name rest = read_pipe failed u64_size λ size. read_pipe failed u64_size λ publishers.
    read_pipe failed u64_size λ subscribers. rest (record {
      box_name = text_of name;
      box_size = from_le size;
      n_publishers = from_le publishers;
      n_subscribers = from_le subscribers;
    })

-- `while (last == 0)`, with the rows that were read; there is room for MAX_BOXES of them. One number
-- of the fuel goes for each row.
unfoldable pub read_rows : Library → ℕ → ℕ → List Box → M System Listed
read_rows library zero last rows = λ _. blocks
read_rows library (suc fuel) last rows =
    if not (last == 0)
    then pure (print_sorted library rows)
    else read_pipe failed 1 λ op_code.
      if not (get_or op_code 0 0 == op_list_boxes_answer)
      then pure failed
      else read_pipe failed 1 λ last'.
        if not (ltb (length rows) max_boxes)
        then (λ _. fault)
        else read_pipe failed box_name_length λ name.
          if get_or name 0 0 == 0
          then pure no_boxes_found
          else read_counters name
              λ row. read_rows library fuel (get_or last' 0 0) (rows ++ (row ∷ []))

unfoldable pub list_boxes : Library → ℕ → M System Listed
list_boxes library fuel = read_rows library fuel 0 []
