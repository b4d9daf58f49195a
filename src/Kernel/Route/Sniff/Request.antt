-- ===== src/Kernel/Route/Sniff/Request.antt =====
-- kernel/src/route/sniff.rs: the host of an HTTP request.
use xray_rs.Base.{
  ℕ, ◌<◌, ◌≡◌, ◌⊎◌, refl, ap, ◌∙◌, Bool, true, false, not, Bool-cases, inl, inr, Option, none, some,
  Option-cases, List, [], ◌∷◌, ◌++◌, append_assoc, ◌==◌, length, all, All, arith,
}
use xray_rs.Base.Text.{
  bytes, is_utf8, is_utf8-ascii, lower, to_ascii_lowercase, eq_ignore_ascii_case, split_once,
  strip_prefix,
}
use xray_rs.Kernel.Net.{is_domain_byte, is_valid_domain}
use xray_rs.Kernel.Net.RoundTrip.{valid→ascii}
use xray_rs.Kernel.Route.Sniff.{
  begins_with, http_methods, split, trim_ascii, count, strip_port, header_host, header_line,
  header_loop, non_empty, sniff_http,
}

-- No line end stands in it.
abbrev pub IsLine : List ℕ → Type 0
IsLine line = all (λ c. not (c == 10)) line ≡ true

-- Lines, each with its end.
abbrev pub unlines : List (List ℕ) → List ℕ
unlines [] = []
unlines (line ∷ lines) = line ++ 10 ∷ unlines lines

split-line :
    (line rest : List ℕ) → IsLine line → split 10 (line ++ 10 ∷ rest) ≡ line ∷ split 10 rest
unfolding split
split-line [] rest h = refl
split-line (c ∷ line) rest h =
    let other : (c == 10) ≡ false = ground arith in
    rw (other, split-line line rest (ground arith)) refl

split-unlines :
    (lines : List (List ℕ)) (rest : List ℕ)
    → All IsLine lines
    → split 10 (unlines lines ++ rest) ≡ lines ++ split 10 rest
split-unlines [] rest a = refl
split-unlines (line ∷ lines) rest (h, a) =
    rw
      (
        append_assoc line (10 ∷ unlines lines) rest,
        split-line line (unlines lines ++ rest) h,
        split-unlines lines rest a,
      )
      refl

-- A valid name has no port and no bracket.
count-lower : (h : List ℕ) → all is_domain_byte h ≡ true → count b':' (to_ascii_lowercase h) ≡ 0
unfolding to_ascii_lowercase lower
count-lower [] v = refl
count-lower (c ∷ h) v =
    let other : (lower c == b':') ≡ false = unfold lower in ground arith in
    rw (other) (count-lower h (ground arith))

no_bracket :
    (h : List ℕ)
    → all is_domain_byte h ≡ true
    → strip_prefix (b'[' ∷ []) (to_ascii_lowercase h) ≡ none
unfolding to_ascii_lowercase strip_prefix
no_bracket [] v = refl
no_bracket (c ∷ h) v =
    let other : (b'[' == lower c) ≡ false = unfold lower in ground arith in rw (other) refl

strip_port-host :
    (h : List ℕ)
    → all is_domain_byte h ≡ true
    → strip_port (to_ascii_lowercase h) ≡ some (to_ascii_lowercase h)
unfolding strip_port
strip_port-host h v = rw (no_bracket h v, strip_port, count-lower h v) refl

-- A header line that names the host: any spelling of `host` before the first colon, and behind it,
-- without the white space around it, a name of the letters of a domain.
pub record IsHost (h line : List ℕ) : Type 0 where
  pub whole : IsLine line
  pub key : List ℕ
  pub value : List ℕ
  pub cut : split_once b':' line ≡ some (key, value)
  pub host_key : eq_ignore_ascii_case key (bytes "host") ≡ true
  pub trimmed : trim_ascii value ≡ h
  pub domain : is_valid_domain h ≡ true

header_line-IsHost :
    (h line : List ℕ) (host : Option (List ℕ))
    → IsHost h line
    → header_line line host ≡ some (some (to_ascii_lowercase h))
unfolding header_line header_host is_valid_domain
header_line-IsHost h line host v =
    let valid = v.domain in
    let plain : all is_domain_byte h ≡ true = ground (arith, valid) in
    rw
      (
        v.cut,
        header_line,
        v.host_key,
        v.trimmed,
        is_utf8-ascii h (valid→ascii h valid),
        strip_port-host h plain,
      )
      refl

-- Whether a line is a header that names the host.
abbrev pub names_host : List ℕ → Bool
names_host line = elim (split_once b':' line) [
  | none ↦ false
  | some (key, value) ↦ eq_ignore_ascii_case key (bytes "host")
]

-- A line with bytes that does not name the host.
pub record IsOther (line : List ℕ) : Type 0 where
  pub whole : IsLine line
  pub long : 0 < length line
  pub other : names_host line ≡ false

header_line-other :
    (line : List ℕ) (host : Option (List ℕ))
    → names_host line ≡ false
    → header_line line host ≡ some host
unfolding header_line header_host
header_line-other line host h = elim (Option-cases (split_once b':' line)) [
  | inl e ↦ rw (e, header_line) refl
  | inr ((key, value), e) ↦
      let k : eq_ignore_ascii_case key (bytes "host") ≡ false = (rw (e, names_host) at h) in
      rw (e, header_line, k) refl
]

header_loop-other :
    (line : List ℕ) (lines : List (List ℕ)) (host : Option (List ℕ))
    → IsOther line
    → header_loop (line ∷ lines) host ≡ header_loop lines host
unfolding header_loop
header_loop-other [] lines host v = absurd (omega (arith, v.long))
header_loop-other (c ∷ line) lines host v = rw (header_line-other (c ∷ line) host v.other) refl

header_loop-others :
    (others lines : List (List ℕ)) (host : Option (List ℕ))
    → All IsOther others
    → header_loop (others ++ lines) host ≡ header_loop lines host
header_loop-others [] lines host a = refl
header_loop-others (line ∷ others) lines host (v, a) =
    header_loop-other line (others ++ lines) host v ∙ header_loop-others others lines host a

-- A line with bytes that the loop reads on from: one that does not name the host, or one of which the
-- value is UTF-8, whatever host it names or does not.
pub record IsPassed (line : List ℕ) : Type 0 where
  pub whole : IsLine line
  pub long : 0 < length line
  pub text :
      (names_host line ≡ false)
      ⊎ ((key : List ℕ) × (value : List ℕ) × (split_once b':' line ≡ some (key, value))
          × (is_utf8 (trim_ascii value) ≡ true))

header_line-passed :
    (line : List ℕ) (host : Option (List ℕ))
    → IsPassed line
    → (found : Option (List ℕ)) × (header_line line host ≡ some found)
unfolding header_line header_host
header_line-passed line host v = elim (v.text) [
  | inl other ↦ (host, header_line-other line host other)
  | inr (key, value, cut, utf8) ↦ elim (Bool-cases (eq_ignore_ascii_case key (bytes "host"))) [
    | inl k ↦
        (strip_port (to_ascii_lowercase (trim_ascii value)), rw (cut, header_line, k, utf8) refl)
    | inr k ↦ (host, rw (cut, header_line, k) refl)
  ]
]

header_loop-line :
    (line : List ℕ) (lines : List (List ℕ)) (host found : Option (List ℕ))
    → 0 < length line
    → header_line line host ≡ some found
    → header_loop (line ∷ lines) host ≡ header_loop lines found
unfolding header_loop
header_loop-line [] lines host found l e = absurd (omega (arith, l))
header_loop-line (c ∷ line) lines host found l e = rw e refl

header_loop-passed :
    (before lines : List (List ℕ)) (host : Option (List ℕ))
    → All IsPassed before
    → (found : Option (List ℕ)) × (header_loop (before ++ lines) host ≡ header_loop lines found)
header_loop-passed [] lines host a = (host, refl)
header_loop-passed (line ∷ before) lines host (v, a) =
    let (first, k) = header_line-passed line host v in
    let (found, e) = header_loop-passed before lines first a in
    (found, header_loop-line line (before ++ lines) host first v.long k ∙ e)

IsHost-long : (h line : List ℕ) → IsHost h line → 0 < length line
unfolding split_once
IsHost-long h [] v = absurd (cc (v.cut))
IsHost-long h (c ∷ line) v = omega arith

-- The end of the lines: that of the bytes, or an empty line with anything behind it.
abbrev pub IsEnd : List ℕ → Type 0
IsEnd end = (end ≡ []) ⊎ ((more : List ℕ) × (end ≡ 10 ∷ more))

header_loop-end :
    (end : List ℕ) (host : Option (List ℕ))
    → IsEnd end
    → header_loop (split 10 end) host ≡ some host
unfolding header_loop split
header_loop-end end host (inl e) = rw e refl
header_loop-end end host (inr (more, e)) = rw e refl

-- A request: its first line, header lines of which the last that names the host is `line`, and an end.
abbrev pub request :
    (first : List ℕ)
    → (before : List (List ℕ)) → (line : List ℕ) → (others : List (List ℕ)) → (end : List ℕ)
    → List ℕ
request first before line others end = unlines (first ∷ (before ++ line ∷ others)) ++ end

before-IsLine :
    (before others : List (List ℕ)) (line : List ℕ)
    → All IsPassed before
    → IsLine line
    → All IsOther others
    → All IsLine (before ++ line ∷ others)
before-IsLine [] [] line a v b = (v, tt)
before-IsLine [] (other ∷ others) line a v (o, b) =
    let (first, rest) = before-IsLine [] others line a v b in (first, (o.whole, rest))
before-IsLine (passed ∷ before) others line (p, a) v b =
    (p.whole, before-IsLine before others line a v b)

header_loop-request :
    (before others : List (List ℕ)) (h line end : List ℕ)
    → All IsPassed before
    → IsHost h line
    → All IsOther others
    → IsEnd end
    → header_loop ((before ++ line ∷ others) ++ split 10 end) none
      ≡ some (some (to_ascii_lowercase h))
header_loop-request before others h line end a v b e =
    let lines = line ∷ (others ++ split 10 end) in
    let (found, passed) = header_loop-passed before lines none a in
    ap (λ l. header_loop l none) (append_assoc before (line ∷ others) (split 10 end))
    ∙ passed
    ∙ header_loop-line line (others ++ split 10 end) found (some (to_ascii_lowercase h))
        (IsHost-long h line v) (header_line-IsHost h line found v)
    ∙ header_loop-others others (split 10 end) (some (to_ascii_lowercase h)) b
    ∙ header_loop-end end (some (to_ascii_lowercase h)) e

non_empty-valid :
    (h : List ℕ)
    → is_valid_domain h ≡ true
    → non_empty (some (to_ascii_lowercase h)) ≡ some (to_ascii_lowercase h)
unfolding is_valid_domain to_ascii_lowercase
non_empty-valid [] v = absurd (cc v)
non_empty-valid (c ∷ h) v = refl

-- In an HTTP request the last line that names a host decides, of the lines before the first empty one
-- or the end, if its value is a name of the letters of a domain, without a port, and if the value of no
-- earlier host line is bytes that are not UTF-8: the sniffer finds that name in lower case, whatever the
-- lines before it name. A line with a carriage return alone is no empty line: if one comes, the lines
-- behind it count as well.
pub sniff_http-request :
    (first : List ℕ) (before : List (List ℕ)) (h line : List ℕ) (others : List (List ℕ))
    (end : List ℕ)
    → begins_with http_methods (request first before line others end) ≡ true
    → IsLine first
    → All IsPassed before
    → IsHost h line
    → All IsOther others
    → IsEnd end
    → sniff_http (request first before line others end) ≡ some (to_ascii_lowercase h)
unfolding sniff_http
sniff_http-request first before h line others end begins whole a v b e =
    let lines : split 10 (request first before line others end)
        ≡ first ∷ ((before ++ line ∷ others) ++ split 10 end) =
      split-unlines (first ∷ (before ++ line ∷ others)) end
        (whole, before-IsLine before others line a v.whole b) in
    rw (begins, lines, header_loop-request before others h line end a v b e)
      (non_empty-valid h v.domain)
