-- ===== src/Kernel/Translation/Split.antt =====
-- A header does not depend on how the network cuts the stream.
use xray_rs.Base.{
  ℕ, ◌+◌, ◌-◌, ◌≤◌, ◌≡◌, refl, sym, ap, ◌∙◌, none, some, List, [], ◌∷◌, ◌++◌, leb, if◌then◌else◌,
  length, take, drop, take-append-drop, take-append_le, take-append, inl, inr, arith, append_assoc,
  append-nil, length-append, drop-append, Bool-cases, Option-cases, ◌≢◌, ◌⊎◌,
}
use xray_rs.Base.Result.{ok, err, Result-cases}
use mathlib.Core.Path.{subst}
use xray_rs.Kernel.Error.{Error, message, wrapped, invalid_data, is_truncated}
use xray_rs.Kernel.Cursor.{Decoder, IsStream, kept_ok, kept_err}
use xray_rs.Kernel.Translation.{
  Event, chunk, failed, ready, try_parse, read_header_inner, read_header,
}

-- The bytes that a run of reads brings, up to its end or failure.
abbrev pub payload : List Event → List ℕ
payload [] = []
payload (failed e ∷ es) = []
payload (chunk [] ∷ es) = []
payload (chunk (b ∷ bs) ∷ es) = (b ∷ bs) ++ payload es

module _ {T : Type 0} (max : ℕ) (parse : Decoder T) (stream : IsStream parse) where
  -- Dropping what the view lost leaves the view.
  drop-consumed :
      (front rest : List ℕ) → drop (length (front ++ rest) - length rest) (front ++ rest) ≡ rest
  drop-consumed front rest =
      let e : length (front ++ rest) - length rest ≡ length front =
        omega (arith, length-append front rest) in
      rw e (drop-append front rest)

  try_parse-ok :
      (acc : List ℕ) (t : T) (left : List ℕ)
      → parse acc ≡ ok (t, left)
      → try_parse max parse acc ≡ some (ok (t, left))
  unfolding try_parse
  try_parse-ok acc t left h =
      let (_, front, split, _) = kept_ok stream acc [] h in
      rw (h, try_parse) (ap (λ r. some (ok (t, r))) (rw split (drop-consumed front left)))

  try_parse-err :
      (acc : List ℕ) (e : Error)
      → parse acc ≡ err e
      → try_parse max parse acc ≡ (
          if is_truncated e
          then if leb max (length acc)
            then some (err (message invalid_data "header too large"))
            else none
          else some (err (wrapped invalid_data e)))
  unfolding try_parse
  try_parse-err acc e h = rw (h, try_parse)

  try_parse-inv_ok :
      (acc : List ℕ) (t : T) (left : List ℕ)
      → try_parse max parse acc ≡ some (ok (t, left))
      → parse acc ≡ ok (t, left)
  try_parse-inv_ok acc t left h = elim (Result-cases (parse acc)) [
    | inl ((a, view), e) ↦ e ∙ cc (try_parse-ok acc a view e)
    | inr (x, e) ↦ ground (arith, try_parse-err acc x e)
  ]

  answered :
      (acc : List ℕ) (es rest : List Event) (t : T) (left : List ℕ)
      → try_parse max parse acc ≡ some (ok (t, left))
      → rest ≡ es
      → parse (acc ++ payload es) ≡ ok (t, left ++ payload rest)
  answered acc es rest t left h same =
      rw same (kept_ok stream acc (payload es) (try_parse-inv_ok acc t left h)).0

  -- A result of the reading is what the decoder makes of all the bytes, however they were cut; what
  -- it leaves over is the rest of them.
  read_header_inner_sound :
      (acc : List ℕ) (es rest : List Event) (t : T) (left : List ℕ)
      → read_header_inner max parse acc es ≡ ready (ok (t, left)) rest
      → parse (acc ++ payload es) ≡ ok (t, left ++ payload rest)
  unfolding read_header_inner
  read_header_inner_sound acc [] rest t left h =
      answered acc [] rest t left (ground arith) (ground arith)
  read_header_inner_sound acc (failed e ∷ es) rest t left h =
      answered acc (failed e ∷ es) rest t left (ground arith) (ground arith)
  read_header_inner_sound acc (chunk [] ∷ es) rest t left h =
      answered acc (chunk [] ∷ es) rest t left (ground arith) (ground arith)
  read_header_inner_sound acc (chunk (b ∷ bs) ∷ es) rest t left h =
      elim (Option-cases (try_parse max parse acc)) [
        | inl more ↦
            subst (λ l. parse l ≡ ok (t, left ++ payload rest))
              (append_assoc acc (b ∷ bs) (payload es))
              (read_header_inner_sound (acc ++ (b ∷ bs)) es rest t left (ground arith))
        | inr (r, e) ↦ answered acc (chunk (b ∷ bs) ∷ es) rest t left (ground arith) (ground arith)
      ]

  front-take :
      (front rest acc ys : List ℕ)
      → acc ++ ys ≡ front ++ rest
      → length front ≤ length acc
      → acc ≡ front ++ drop (length front) acc
  front-take front rest acc ys h le =
      sym (take-append-drop (length front) acc)
      ∙ ap (λ t. t ++ drop (length front) acc)
          (sym (take-append_le (length front) acc ys le)
            ∙ ap (take (length front)) h
            ∙ take-append front rest)

  not_large :
      (acc ys : List ℕ) (t : T) (rest : List ℕ) (x : Error)
      → parse (acc ++ ys) ≡ ok (t, rest)
      → length (acc ++ ys) ≤ max + length rest
      → parse acc ≡ err x
      → ¬ (max ≤ length acc)
  not_large acc ys t rest x h small e large =
      let (_, front, split, whole) = kept_ok stream (acc ++ ys) [] h in
      let le : length front ≤ length acc =
        omega (arith, ap length split, length-append front rest) in
      cc (
        front-take front rest acc ys split le,
        e,
        (kept_ok stream front (drop (length front) acc) whole).0,
      )

  not_empty :
      (acc ys : List ℕ) (t : T) (rest : List ℕ) (x : Error)
      → ys ≡ []
      → parse (acc ++ ys) ≡ ok (t, rest)
      → ¬ (parse acc ≡ err x)
  not_empty acc ys t rest x z h e = cc (append-nil acc)

  -- Once the bytes that the decoder needs are there it answers; before, it asks for more.
  settled :
      (acc ys : List ℕ) (t : T) (rest : List ℕ)
      → parse (acc ++ ys) ≡ ok (t, rest)
      → length (acc ++ ys) ≤ max + length rest
      → ((left : List ℕ) × (parse acc ≡ ok (t, left)) × (left ++ ys ≡ rest))
        ⊎ ((try_parse max parse acc ≡ none) × (ys ≢ []))
  settled acc ys t rest h small = elim (Result-cases (parse acc)) [
    | inl ((a, view), e) ↦ inl (
      view,
      ground (arith, (kept_ok stream acc ys e).0),
      ground (arith, (kept_ok stream acc ys e).0),
    )
    | inr (x, e) ↦ elim (Bool-cases (is_truncated x)) [
      | inr final ↦ cc (h, kept_err stream acc ys e final)
      | inl more ↦ elim (Bool-cases (leb max (length acc))) [
        | inl large ↦ absurd (not_large acc ys t rest x h small e (ground arith))
        | inr room ↦
            inr (rw (try_parse-err acc x e, more, room), λ z. not_empty acc ys t rest x z h e)
      ]
    ]
  ]

  -- The reads that are left bring what the decoder left over.
  Answers : List ℕ → List Event → T → List ℕ → Type 0
  Answers acc es t rest =
      (left : List ℕ) × (es' : List Event) × (read_header_inner max parse acc es
        ≡ ready (ok (t, left)) es')
      × (left ++ payload es' ≡ rest)

  stops :
      (acc : List ℕ) (es : List Event) (t : T) (rest : List ℕ)
      → ((left : List ℕ) × (parse acc ≡ ok (t, left)) × (left ++ payload es ≡ rest))
      → Answers acc es t rest
  unfolding read_header_inner Answers
  stops acc [] t rest (left, h, e) = (left, [], ground (arith, try_parse-ok acc t left h), e)
  stops acc (failed x ∷ es) t rest (left, h, e) =
      (left, failed x ∷ es, ground (arith, try_parse-ok acc t left h), e)
  stops acc (chunk [] ∷ es) t rest (left, h, e) =
      (left, chunk [] ∷ es, ground (arith, try_parse-ok acc t left h), e)
  stops acc (chunk (b ∷ bs) ∷ es) t rest (left, h, e) =
      (left, chunk (b ∷ bs) ∷ es, ground (arith, try_parse-ok acc t left h), e)

  reads_on :
      (acc : List ℕ) (b : ℕ) (bs : List ℕ) (es : List Event) (t : T) (rest : List ℕ)
      → try_parse max parse acc ≡ none
      → Answers (acc ++ (b ∷ bs)) es t rest
      → Answers acc (chunk (b ∷ bs) ∷ es) t rest
  unfolding read_header_inner Answers
  reads_on acc b bs es t rest more (left, es', h, e) = (left, es', ground arith, e)

  read_header_inner_complete :
      (acc : List ℕ) (es : List Event) (t : T) (rest : List ℕ)
      → parse (acc ++ payload es) ≡ ok (t, rest)
      → length (acc ++ payload es) ≤ max + length rest
      → Answers acc es t rest
  read_header_inner_complete acc [] t rest h small = elim (settled acc [] t rest h small) [
    | inl now ↦ stops acc [] t rest now
    | inr (_, none_left) ↦ absurd (none_left refl)
  ]
  read_header_inner_complete acc (failed x ∷ es) t rest h small =
      elim (settled acc [] t rest h small) [
        | inl now ↦ stops acc (failed x ∷ es) t rest now
        | inr (_, none_left) ↦ absurd (none_left refl)
      ]
  read_header_inner_complete acc (chunk [] ∷ es) t rest h small =
      elim (settled acc [] t rest h small) [
        | inl now ↦ stops acc (chunk [] ∷ es) t rest now
        | inr (_, none_left) ↦ absurd (none_left refl)
      ]
  read_header_inner_complete acc (chunk (b ∷ bs) ∷ es) t rest h small =
      elim (settled acc (payload (chunk (b ∷ bs) ∷ es)) t rest h small) [
        | inl now ↦ stops acc (chunk (b ∷ bs) ∷ es) t rest now
        | inr (more, _) ↦
            let same = append_assoc acc (b ∷ bs) (payload es) in
            reads_on acc b bs es t rest more
              (read_header_inner_complete (acc ++ (b ∷ bs)) es t rest (rw same h) (rw same small))
      ]

  -- For a decoder that keeps its answer when more bytes come: a header that the reader returns is what
  -- the decoder makes of all the bytes that come before the end, however the reads cut them; the rest of
  -- those bytes is the leftover and then the reads left.
  pub read_header_sound :
      (es rest : List Event) (t : T) (left : List ℕ)
      → read_header max parse es ≡ (ok (t, left), rest)
      → parse (payload es) ≡ ok (t, left ++ payload rest)
  unfolding read_header
  read_header_sound es rest t left h = read_header_inner_sound [] es rest t left (ground arith)

  -- For a decoder that keeps its answer when more bytes come: if it finds a header of at most `max` bytes
  -- at the front of the bytes that come, then the reader returns it, however the reads cut them, and
  -- what it leaves is the rest of the bytes.
  pub read_header_complete :
      (es : List Event) (t : T) (rest : List ℕ)
      → parse (payload es) ≡ ok (t, rest)
      → length (payload es) ≤ max + length rest
      → (left : List ℕ) × (es' : List Event) × (read_header max parse es ≡ (ok (t, left), es'))
        × (left ++ payload es' ≡ rest)
  unfolding read_header Answers
  read_header_complete es t rest h small =
      let (left, es', e, split) = read_header_inner_complete [] es t rest h small in
      (left, es', rw (e, read_header), split)
