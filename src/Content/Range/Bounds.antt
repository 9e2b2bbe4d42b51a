-- ===== src/Content/Range/Bounds.antt =====
-- Which ranges are served.
use silicon_briefcase.Prelude.{
  ℕ, ◌+◌, ◌-◌, ◌≤◌, ◌<◌, ◌≡◌, ◌⊎◌, inl, inr, ok, err, arith, u64_mod, refl, Result, ap, sym, ◌∙◌,
  ◌↔◌,
}
use native.Mathlib.Decide.{dec_lt}
use silicon_briefcase.Error.{AppError, range_not_satisfiable}
use silicon_briefcase.Storage.{ByteRange, RangeRequest, from, last, between}
use silicon_briefcase.Content.Range.{range_length, anchored, resolve_range}

-- The first and last byte that a request means in a file of a size.
abbrev pub first_byte : RangeRequest → ℕ → ℕ
first_byte (from start) size = start
first_byte (between start end) size = start
first_byte (last length) size = size - length

-- A request has something to serve.
abbrev pub IsSatisfiable : RangeRequest → ℕ → Type 0
IsSatisfiable (from start) size = start < size
IsSatisfiable (between start end) size = (start < size) × (start ≤ end)
IsSatisfiable (last length) size = (1 ≤ length) × (1 ≤ size)

-- How many bytes a satisfiable request is answered with.
abbrev pub BytesServed : RangeRequest → ℕ → ℕ → Type 0
BytesServed (from start) size n = n + start ≡ size
BytesServed (between start end) size n =
    ((n + start ≡ end + 1) × (end < size)) ⊎ ((n + start ≡ size) × (size ≤ end))
BytesServed (last length) size n = ((n ≡ length) × (length ≤ size)) ⊎ ((n ≡ size) × (size < length))

-- An answer with an error: nothing of the file is in the request, and the error names the size.
refused-size :
    (request : RangeRequest) (size : ℕ) (e : AppError)
    → resolve_range request size ≡ err e
    → (e ≡ range_not_satisfiable size) × ¬ IsSatisfiable request size
unfolding resolve_range anchored
refused-size (from start) size e h = (ground arith, λ s. ground arith)
refused-size (between start end) size e h = (ground arith, λ s. ground arith)
refused-size (last length) size e h = (ground arith, λ s. ground arith)

served-IsSatisfiable :
    (request : RangeRequest) (size : ℕ) (range : ByteRange)
    → resolve_range request size ≡ ok range
    → IsSatisfiable request size
unfolding resolve_range anchored
served-IsSatisfiable (from start) size range h = ground arith
served-IsSatisfiable (between start end) size range h = (ground arith, ground arith)
served-IsSatisfiable (last length) size range h = (ground arith, ground arith)

refused_of_unsatisfiable :
    (request : RangeRequest) (size : ℕ) (answer : Result ByteRange AppError)
    → resolve_range request size ≡ answer
    → ¬ IsSatisfiable request size
    → answer ≡ err (range_not_satisfiable size)
refused_of_unsatisfiable request size (ok range) h nothing =
    absurd (nothing (served-IsSatisfiable request size range h))
refused_of_unsatisfiable request size (err e) h nothing = ap err (refused-size request size e h).0

-- A request is answered with an error exactly when nothing of the file is in it, and that error
-- names the size of the file.
pub resolve_range-err :
    (request : RangeRequest) (size : ℕ) (e : AppError)
    → (resolve_range request size ≡ err e)
      ↔ ((e ≡ range_not_satisfiable size) × ¬ IsSatisfiable request size)
resolve_range-err request size e = (
  refused-size request size e,
  λ (named, nothing). refused_of_unsatisfiable request size _ refl nothing ∙ ap err (sym named),
)

-- A satisfiable request is answered with a range that lies within the file, whose first byte is the
-- one that was asked for, and whose length is not zero and is exactly what the request means:
-- what it names, cut at the end of the file.
pub resolve_range-IsSatisfiable :
    (request : RangeRequest) (size : ℕ)
    → size < u64_mod
    → IsSatisfiable request size
    → (range : ByteRange) × (resolve_range request size ≡ ok range)
      × (range.start ≡ first_byte request size)
      × (range.start ≤ range.end)
      × (range.end < size)
      × BytesServed request size (range_length range)
unfolding resolve_range anchored range_length
resolve_range-IsSatisfiable (from start) size h s = (
  record { start = start; end = size - 1 },
  ground arith,
  refl,
  omega arith,
  omega arith,
  ground arith,
)
resolve_range-IsSatisfiable (between start end) size h s = elim (dec_lt end size) [
  | yes inside ↦ (
    record { start = start; end = end },
    ground arith,
    refl,
    omega arith,
    omega arith,
    inl (ground arith),
  )
  | no over ↦ (
    record { start = start; end = size - 1 },
    ground arith,
    refl,
    omega arith,
    omega arith,
    inr (ground arith),
  )
]
resolve_range-IsSatisfiable (last length) size h s = elim (dec_lt size length) [
  | no fits ↦ (
    record { start = size - length; end = size - 1 },
    ground arith,
    refl,
    omega arith,
    omega arith,
    inl (ground arith),
  )
  | yes over ↦ (
    record { start = size - length; end = size - 1 },
    ground arith,
    refl,
    omega arith,
    omega arith,
    inr (ground arith),
  )
]

-- A range that serves a request: it starts at the byte asked for, lies within the file, and is as long
-- as the request means.
abbrev pub IsServed : RangeRequest → ℕ → ByteRange → Type 0
IsServed request size range =
    IsSatisfiable request size
    × (range.start ≡ first_byte request size)
    × (range.start ≤ range.end)
    × (range.end < size)
    × BytesServed request size (range.end + 1 - range.start)

-- Whatever range is resolved serves its request.
pub resolve_range-IsServed :
    (request : RangeRequest) (size : ℕ) (range : ByteRange)
    → resolve_range request size ≡ ok range
    → IsServed request size range
unfolding resolve_range anchored
resolve_range-IsServed (from start) size range e =
    let low : range.start ≡ start = ground arith in
    let high : range.end ≡ size - 1 = ground arith in
    let s = served-IsSatisfiable (from start) size range e in
    (s, low, omega arith, omega arith, omega arith)
resolve_range-IsServed (between start end) size range e =
    let low : range.start ≡ start = ground arith in
    let s = served-IsSatisfiable (between start end) size range e in
    elim (dec_lt end size) [
      | yes inside ↦
          let high : range.end ≡ end = ground arith in
          (s, low, omega arith, omega arith, inl (omega arith, inside))
      | no over ↦
          let high : range.end ≡ size - 1 = ground arith in
          (s, low, omega arith, omega arith, inr (omega arith, omega arith))
    ]
resolve_range-IsServed (last length) size range e =
    let low : range.start ≡ size - length = ground arith in
    let high : range.end ≡ size - 1 = ground arith in
    let s = served-IsSatisfiable (last length) size range e in
    elim (dec_lt size length) [
      | no fits ↦ (s, low, omega arith, omega arith, inl (omega arith, omega arith))
      | yes over ↦ (s, low, omega arith, omega arith, inr (omega arith, over))
    ]
