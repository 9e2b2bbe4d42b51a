-- ===== src/Entry/Path/Normal.antt =====
-- Accepted paths are in normal form: valid names joined by single slashes.
use mathlib.Core.List.{append_assoc}
use silicon_briefcase.Prelude.{
  false, ◌≡◌, ◌≤◌, refl, sym, ap, ◌∙◌, subst, List, [], ◌∷◌, ◌++◌, Result, ok, err, >>=-eq-ok,
  ◌>>=◌, map_err, arith, All, if◌then◌else◌,
}
use silicon_briefcase.Text.{
  Str, trim, trim_matches, byte_len, is_empty, split, join_with, is_whitespace,
}
use silicon_briefcase.Text.Trim.{
  Clean, Clean-of_trim, Clean-of_free, Clean-append, trim_of_Clean, trim_matches_of_Clean,
  is_empty-append,
}
use silicon_briefcase.Text.Split.{Free, split-join_with, split-eq-cons}
use silicon_briefcase.Entry.Name.{EntryName, EntryNameError, entry_name}
use silicon_briefcase.Entry.Name.Valid.{IsName, entry_name-IsName, entry_name_of_IsName}
use silicon_briefcase.Entry.Path.{
  segment, max_entry_path_bytes, push_segments, check_length, entry_path, segments, is_slash,
}

-- Valid names joined by single slashes, within the bound on paths.
pub record IsPath (p : Str) : Type 0 where
  pub first : Str
  pub rest : List Str
  pub named : All IsName (first ∷ rest)
  pub joined : p ≡ join_with b'/' (first ∷ rest)
  pub short : byte_len p ≤ max_entry_path_bytes

join_with-merge :
    (s n : Str) (ns : List Str)
    → join_with b'/' ((s ++ b'/' ∷ n) ∷ ns) ≡ join_with b'/' (s ∷ n ∷ ns)
unfolding join_with
join_with-merge s n [] = refl
join_with-merge s n (m ∷ ns) = append_assoc s (b'/' ∷ n) (b'/' ∷ join_with b'/' (m ∷ ns))

segment_ok :
    (part name : Str) → map_err segment (entry_name part) ≡ ok name → entry_name part ≡ ok name
segment_ok part name h = go (entry_name part) h
  where
    go : (r : Result EntryName EntryNameError) → map_err segment r ≡ ok name → r ≡ ok name
    go (ok n) e = ground arith
    go (err n) e = absurd (cc)

push_segments_ok :
    (normalized : Str) (parts : List Str) (p : Str)
    → is_empty normalized ≡ false
    → push_segments normalized parts ≡ ok p
    → (names : List Str) × All IsName names × (p ≡ join_with b'/' (normalized ∷ names))
unfolding push_segments join_with
push_segments_ok normalized [] p n h = ([], tt, ground arith)
push_segments_ok normalized (part ∷ parts) p n h =
    let (name, e, g) =
      >>=-eq-ok (map_err segment (entry_name part))
        (λ name.
          push_segments (if is_empty normalized then name else normalized ++ b'/' ∷ name) parts)
        h in
    let v = (entry_name-IsName part name (segment_ok part name e)).1 in
    let (names, vs, q) =
      push_segments_ok (normalized ++ b'/' ∷ name) parts p
        (is_empty-append normalized (b'/' ∷ name) refl) (rw n at g) in
    (name ∷ names, (v, vs), q ∙ join_with-merge normalized name names)

push_segments_of_names :
    (normalized : Str) (names : List Str)
    → is_empty normalized ≡ false
    → All IsName names
    → push_segments normalized names ≡ ok (join_with b'/' (normalized ∷ names))
unfolding push_segments
push_segments_of_names normalized [] n v = unfold join_with in refl
push_segments_of_names normalized (name ∷ names) n (v, vs) =
    rw (entry_name_of_IsName name v, n)
      (push_segments_of_names (normalized ++ b'/' ∷ name) names
          (is_empty-append normalized (b'/' ∷ name) refl) vs
        ∙ ap ok (join_with-merge normalized name names))

pub check_length_ok :
    (s p : Str) → check_length s ≡ ok p → (p ≡ s) × (byte_len s ≤ max_entry_path_bytes)
unfolding check_length
check_length_ok s p h = ground arith

-- The segments of a text, pushed one after the other, give a normal path.
pushed-IsPath :
    (part : Str) (parts : List Str) (normalized p : Str)
    → push_segments [] (part ∷ parts) ≡ ok normalized
    → check_length normalized ≡ ok p
    → IsPath p
unfolding push_segments
pushed-IsPath part parts normalized p h g =
    let (name, e, f) =
      >>=-eq-ok (map_err segment (entry_name part)) (λ name. push_segments name parts) h in
    let v = (entry_name-IsName part name (segment_ok part name e)).1 in
    let (names, vs, q) = push_segments_ok name parts normalized v.nonempty f in
    let (same, short) = check_length_ok normalized p g in
    record { first = name; rest = names; named = (v, vs); joined = same ∙ q; short = rw same short }

-- Whatever text is accepted as a path, the path is valid names joined by single slashes, and its
-- length is within the bound.
pub entry_path-IsPath : (s p : Str) → entry_path s ≡ ok p → IsPath p
unfolding entry_path
entry_path-IsPath s p h =
    let t = trim (trim_matches is_slash (trim s)) in
    let (part, parts, e) = split-eq-cons b'/' t in
    let g : (push_segments [] (split b'/' t) >>= check_length) ≡ ok p = ground arith in
    let (normalized, a, b) = >>=-eq-ok (push_segments [] (split b'/' t)) check_length g in
    pushed-IsPath part parts normalized p (ap (push_segments []) (sym e) ∙ a) b

-- Names are clean at both ends: of white space and of slashes.
abbrev EdgeFree : Str → Type 0
EdgeFree s = Clean is_whitespace s × Clean is_slash s × (is_empty s ≡ false)

name-EdgeFree : {n : Str} → IsName n → EdgeFree n
name-EdgeFree {n} v = (Clean-of_trim n v.trimmed, Clean-of_free b'/' n v.no_slash, v.nonempty)

join_with-EdgeFree :
    (n : Str) (ns : List Str) → All IsName (n ∷ ns) → EdgeFree (join_with b'/' (n ∷ ns))
unfolding join_with
join_with-EdgeFree n [] v = name-EdgeFree v.0
join_with-EdgeFree n (m ∷ ns) v =
    let (a, b, c) = name-EdgeFree v.0 in
    let (x, y, z) = join_with-EdgeFree m ns v.1 in
    let tail = join_with b'/' (m ∷ ns) in
    (
      Clean-append is_whitespace n tail b'/' c a z x,
      Clean-append is_slash n tail b'/' c b z y,
      is_empty-append n (b'/' ∷ tail) refl,
    )

All-Free : (ns : List Str) → All IsName ns → All (Free b'/') ns
All-Free [] v = tt
All-Free (n ∷ ns) v = (v.0.no_slash, All-Free ns v.1)

-- The segments of a path are its names, in order.
pub segments-IsPath : (p : Str) (v : IsPath p) → segments p ≡ v.first ∷ v.rest
unfolding segments
segments-IsPath p v =
    ap (split b'/') v.joined
    ∙ split-join_with b'/' v.first v.rest (All-Free (v.first ∷ v.rest) v.named)

push_names :
    (n : Str) (ns : List Str)
    → All IsName (n ∷ ns)
    → push_segments [] (n ∷ ns) ≡ ok (join_with b'/' (n ∷ ns))
unfolding push_segments
push_names n ns (v, vs) = rw (entry_name_of_IsName n v) (push_segments_of_names n ns v.nonempty vs)

-- A path in normal form is accepted as it is.
pub entry_path_of_IsPath : (p : Str) → IsPath p → entry_path p ≡ ok p
unfolding entry_path check_length segments
entry_path_of_IsPath p v =
    let (a, b, c) = subst EdgeFree (sym v.joined) (join_with-EdgeFree v.first v.rest v.named) in
    let t : trim (trim_matches is_slash (trim p)) ≡ p =
      ap (λ x. trim (trim_matches is_slash x)) (trim_of_Clean p a)
      ∙ ap trim (trim_matches_of_Clean is_slash p b)
      ∙ trim_of_Clean p a in
    let pushed : push_segments [] (split b'/' p) ≡ ok p =
      ap (push_segments []) (segments-IsPath p v)
      ∙ push_names v.first v.rest v.named
      ∙ ap ok (sym v.joined) in
    rw (t, c, pushed) (ground (arith, v.short))
