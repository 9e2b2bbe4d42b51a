-- ===== src/Entry/Path/Tree.antt =====
-- Paths as the addresses of a tree: a child, its folder, its name and its depth.
use silicon_briefcase.Prelude.{
  ◌+◌, false, ◌≡◌, ◌≤◌, refl, sym, ap, ◌∙◌, subst, List, [], ◌∷◌, ◌++◌, none, some, ok, arith, All,
  length, length-append, ◌||◌, inl, inr, Bool-cases,
}
use silicon_briefcase.Text.{Str, byte_len, split, join_with, rsplit_once, str_eq}
use silicon_briefcase.Text.Split.{join_with-snoc, rsplit_once-append, split-Free, rsplit-Free}
use silicon_briefcase.Text.Trim.{str_eq_sound}
use silicon_briefcase.Entry.Name.{dot, dot_dot}
use silicon_briefcase.Entry.Name.Valid.{IsName}
use silicon_briefcase.Entry.Path.{
  max_entry_path_bytes, drive_root, is_drive_root, join, segments, name, depth, parent,
}
use silicon_briefcase.Entry.Path.Normal.{IsPath, segments-IsPath, check_length_ok}

All-snoc : (ns : List Str) (n : Str) → All IsName ns → IsName n → All IsName (ns ++ n ∷ [])
All-snoc [] n v w = (w, tt)
All-snoc (m ∷ ns) n v w = (v.0, All-snoc ns n v.1 w)

dots_refused : (n : Str) → n ≡ dot → (str_eq n dot || str_eq n dot_dot) ≡ false → ⊥
unfolding str_eq
dots_refused n e h = let t = subst (λ m. (str_eq m dot || str_eq m dot_dot) ≡ false) e h in cc t

-- The root of a drive has a path of its own, which no entry inside the drive has.
drive_root_unique : (p : Str) → IsPath p → is_drive_root p ≡ false
unfolding is_drive_root segments split str_eq
drive_root_unique p v = elim (Bool-cases (str_eq p dot)) [
  | inr other ↦ other
  | inl same ↦
      let heads : v.first ∷ v.rest ≡ dot ∷ [] =
        sym (segments-IsPath p v) ∙ ap segments (str_eq_sound p dot same) in
      let dotted : v.first ≡ dot = cc heads in
      let named : (str_eq v.first dot || str_eq v.first dot_dot) ≡ false = v.named.0.not_dots in
      absurd (dots_refused v.first dotted named)
]

join_ok :
    (p n c : Str)
    → is_drive_root p ≡ false
    → join p n ≡ ok c
    → (c ≡ p ++ b'/' ∷ n) × (byte_len (p ++ b'/' ∷ n) ≤ max_entry_path_bytes)
unfolding join
join_ok p n c h e = ground (arith, check_length_ok (p ++ b'/' ∷ n) c)

-- When joining a valid name to a path in normal form succeeds, the path of the child is in normal form
-- again, its parent is the folder, its name is the one joined, it lies one level deeper, and its
-- segments are the folder's followed by that name.
pub join-child :
    (p n c : Str) (v : IsPath p)
    → IsName n
    → join p n ≡ ok c
    → IsPath c
      × (parent c ≡ some p)
      × (name c ≡ n)
      × (depth c ≡ depth p + 1)
      × (segments c ≡ segments p ++ n ∷ [])
unfolding parent name depth segments
join-child p n c v w e =
    let (same, short) = join_ok p n c (drive_root_unique p v) e in
    let joined : p ++ b'/' ∷ n ≡ join_with b'/' (v.first ∷ (v.rest ++ n ∷ [])) =
      ap (λ (x : Str). x ++ b'/' ∷ n) v.joined ∙ sym (join_with-snoc b'/' v.first v.rest n) in
    let path : IsPath c = record {
      first = v.first;
      rest = v.rest ++ n ∷ [];
      named = (v.named.0, All-snoc v.rest n v.named.1 w);
      joined = same ∙ joined;
      short = rw same short;
    } in
    let last : rsplit_once b'/' c ≡ some (p, n) =
      ap (rsplit_once b'/') same ∙ rsplit_once-append b'/' p n w.no_slash in
    let parts : segments c ≡ segments p ++ n ∷ [] =
      segments-IsPath c path ∙ ap (λ (l : List Str). l ++ n ∷ []) (sym (segments-IsPath p v)) in
    (path, rw last, rw last, ap length parts ∙ length-append (segments p) (n ∷ []), parts)

-- A child of the drive's root, with a valid name, is addressed by its name alone, at depth 1, and has no parent path.
pub join-drive_root :
    (n : Str)
    → IsName n
    → (join drive_root n ≡ ok n) × IsPath n × (depth n ≡ 1) × (parent n ≡ none) × (name n ≡ n)
unfolding join is_drive_root depth parent name str_eq join_with
join-drive_root n w =
    let last = rsplit-Free b'/' n w.no_slash in
    (
      refl,
      record {
        first = n;
        rest = [];
        named = (w, tt);
        joined = refl;
        short = omega (arith, w.short);
      },
      ap length (split-Free b'/' n w.no_slash),
      rw last,
      rw last,
    )
