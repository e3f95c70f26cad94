-- ===== src/Clients/Rows.antt =====
-- list_boxes of the manager, when it reads the answers to a list request.
use proj_so.Prelude.{
  ℕ, zero, suc, ◌+◌, ◌^◌, ◌<◌, ◌≤◌, ◌≡◌, refl, ap, subst, ◌∙◌, Bool, true, false, List, [], ◌∷◌,
  ◌++◌, arith, ltb, ◌==◌, length, length-append, append_assoc, get_or, take, drop, take-append_left,
  drop-append_left, ok,
}
use proj_so.Fs.Memory.{strncpy_bytes}
use proj_so.Fs.Memory.Laws.{IsName, length-strncpy_bytes}
use proj_so.Wire.System.{System, ReadAnswer, Delivers, read_pipe-got}
use proj_so.Wire.Text.{text_of-strncpy_bytes}
use proj_so.Wire.Numbers.{u64_bytes, from_le-u64_bytes, length-u64_bytes}
use proj_so.Wire.Request.{box_name_length, op_list_boxes_answer}
use proj_so.Wire.Serve.{All, Delivers-split}
use proj_so.Broker.Boxes.{Box, max_boxes}
use proj_so.Server.Listing.{counters, flag}
use proj_so.Server.ListAnswer.{answer_frame, answer_frames}
use proj_so.Clients.Manager.{Library, failed, print_sorted, u64_size, read_rows, list_boxes}

-- The parts of an answer that list_boxes reads, one after the other.
abbrev pub pieces : List ℕ → List (List ℕ)
pieces frame =
    take 1 frame
    ∷ take 1 (drop 1 frame)
    ∷ take box_name_length (drop 2 frame)
    ∷ take u64_size (drop box_name_length (drop 2 frame))
    ∷ take u64_size (drop u64_size (drop box_name_length (drop 2 frame)))
    ∷ drop u64_size (drop u64_size (drop box_name_length (drop 2 frame)))
    ∷ []

abbrev pub pieces_all : List (List ℕ) → List (List ℕ)
pieces_all [] = []
pieces_all (f ∷ fs) = pieces f ++ pieces_all fs

-- What a table may hold: a name that fits, and numbers of 64 bits.
pub record IsListable (box : Box) : Type 0 where
  pub name : IsName box.box_name
  pub some_byte : 0 < length box.box_name
  pub fits : length box.box_name ≤ box_name_length
  pub size : box.box_size < 2 ^ 64
  pub publishers : box.n_publishers < 2 ^ 64
  pub subscribers : box.n_subscribers < 2 ^ 64

pieces-answer :
    (last : Bool) (box : Box)
    → pieces (answer_frame last box)
      ≡ (op_list_boxes_answer ∷ [])
        ∷ (flag last ∷ [])
        ∷ strncpy_bytes box.box_name box_name_length
        ∷ u64_bytes box.box_size
        ∷ u64_bytes box.n_publishers
        ∷ u64_bytes box.n_subscribers
        ∷ []
pieces-answer last box =
    let name = strncpy_bytes box.box_name box_name_length in
    let n = length-strncpy_bytes box.box_name box_name_length in
    let a = u64_bytes box.box_size in
    let b = u64_bytes box.n_publishers in
    let d = u64_bytes box.n_subscribers in
    rw
      (
        take-append_left box_name_length name (counters box) n,
        drop-append_left box_name_length name (counters box) n,
      )
      (rw
        (
          take-append_left u64_size a (b ++ d) (length-u64_bytes box.box_size),
          drop-append_left u64_size a (b ++ d) (length-u64_bytes box.box_size),
        )
        (rw
          (
            take-append_left u64_size b d (length-u64_bytes box.n_publishers),
            drop-append_left u64_size b d (length-u64_bytes box.n_publishers),
          )
          refl))

first_byte :
    (name : List ℕ)
    → IsName name
    → 0 < length name
    → (get_or (strncpy_bytes name 31) 0 0 == 0) ≡ false
first_byte [] h p = absurd (omega arith)
first_byte (c ∷ name) (q, h) p = ground arith

module _ (library : Library) where
  read_row :
      (fuel : ℕ) (rows : List Box) (last : Bool) (box : Box) (s : System) (mid : List ReadAnswer)
      → IsListable box
      → length rows < max_boxes
      → Delivers s.reads (pieces (answer_frame last box)) mid
      → read_rows library (suc fuel) 0 rows s
        ≡ read_rows library fuel (flag last) (rows ++ (box ∷ [])) (record s { reads = mid })
  unfolding read_rows
  read_row fuel rows last box s mid v room d =
      let (a, ea, (b, eb, (n, en, (x, ex, (y, ey, (z, ez, end)))))) =
        subst (λ (f : List (List ℕ)). Delivers s.reads f mid) (pieces-answer last box) d in
      let fits : ltb (length rows) max_boxes ≡ true = ground arith in
      let s₁ : System = record s { reads = a } in
      let s₂ : System = record s { reads = b } in
      let s₃ : System = record s { reads = n } in
      let s₄ : System = record s { reads = x } in
      let s₅ : System = record s { reads = y } in
      read_pipe-got failed 1 _ s (op_list_boxes_answer ∷ []) a refl ea
      ∙ read_pipe-got failed 1 _ s₁ (flag last ∷ []) b refl eb
      ∙ rw fits (
          read_pipe-got failed box_name_length _ s₂ (strncpy_bytes box.box_name box_name_length) n
            (length-strncpy_bytes box.box_name box_name_length) en
          ∙ rw (first_byte box.box_name v.name v.some_byte) (
              read_pipe-got failed u64_size _ s₃ (u64_bytes box.box_size) x
                (length-u64_bytes box.box_size) ex
              ∙ read_pipe-got failed u64_size _ s₄ (u64_bytes box.n_publishers) y
                  (length-u64_bytes box.n_publishers) ey
              ∙ read_pipe-got failed u64_size _ s₅ (u64_bytes box.n_subscribers) z
                  (length-u64_bytes box.n_subscribers) ez
              ∙ rw
                  (
                    text_of-strncpy_bytes box.box_name box_name_length v.name v.fits,
                    from_le-u64_bytes box.box_size v.size,
                    from_le-u64_bytes box.n_publishers v.publishers,
                    from_le-u64_bytes box.n_subscribers v.subscribers,
                    end,
                  )
                  refl))

  -- The rows that are read after the first ones.
  read_rows-rest :
      (b : Box) (bs rows : List Box) (fuel : ℕ) (s : System) (rest : List ReadAnswer)
      → All IsListable (b ∷ bs)
      → length rows + suc (length bs) ≤ max_boxes
      → suc (length bs) < fuel
      → Delivers s.reads (pieces_all (answer_frames (b ∷ bs))) rest
      → read_rows library fuel 0 rows s
        ≡ ok (print_sorted library (rows ++ (b ∷ bs))) (record s { reads = rest })
  unfolding read_rows
  read_rows-rest b bs rows zero s rest v room h d = absurd (omega arith)
  read_rows-rest b [] rows (suc zero) s rest v room h d = absurd (omega arith)
  read_rows-rest b [] rows (suc (suc fuel)) s rest (v, _) room h d =
      read_row (suc fuel) rows true b s rest v (omega arith) d
  read_rows-rest b (b' ∷ bs) rows (suc fuel) s rest (v, vs) room h d =
      let (mid, d₁, d₂) =
        Delivers-split s.reads (pieces (answer_frame false b))
          (pieces_all (answer_frames (b' ∷ bs))) rest d in
      let more : length (rows ++ (b ∷ [])) ≡ suc (length rows) =
        omega (arith, length-append rows (b ∷ [])) in
      read_row fuel rows false b s mid v (omega arith) d₁
      ∙ read_rows-rest b' bs (rows ++ (b ∷ [])) fuel (record s { reads = mid }) rest vs
          (omega arith) (omega arith) d₂
      ∙ ap (λ (r : List Box). ok (print_sorted library r) (record s { reads = rest }))
          (append_assoc rows (b ∷ []) (b' ∷ bs))

  pub list_boxes-answers :
      (bs : List Box) (fuel : ℕ) (s : System) (rest : List ReadAnswer)
      → 0 < length bs
      → All IsListable bs
      → length bs ≤ max_boxes
      → length bs < fuel
      → Delivers s.reads (pieces_all (answer_frames bs)) rest
      → list_boxes library fuel s ≡ ok (print_sorted library bs) (record s { reads = rest })
  unfolding list_boxes
  list_boxes-answers [] fuel s rest some_box v room h d = absurd (omega arith)
  list_boxes-answers (b ∷ bs) fuel s rest some_box v room h d =
      read_rows-rest b bs [] fuel s rest v (omega arith) h d
