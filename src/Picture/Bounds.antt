-- ===== src/Picture/Bounds.antt =====
-- The buffers of the picture of the CPU hold what is copied to them and read from them.
use obs_zcamera.Prelude.{
  ℕ, zero, suc, ◌*◌, ◌≤◌, ◌<◌, ◌≡◌, refl, sym, ap, ◌∙◌, Bool, true, false, not, ◌||◌, Option, none,
  some, List, [], ◌∷◌, ◌==◌, if◌then◌else◌, get_or, length, arith, Bool-cases, inl, inr, true≢false,
}
use obs_zcamera.Picture.{
  Picture, Shape, Plane, Cpu, no_plane, plane_count, grown, copy_planes, rgba_bytes, same_shape,
  is_some, shape_of, convert, upload, emptied, free_cpu,
}

-- There is a buffer of this many bytes, or more.
abbrev pub Holds : Option ℕ → ℕ → Type 0
Holds none bytes = true ≡ false
Holds (some held) bytes = bytes ≤ held

abbrev pub plane_at : List Plane → ℕ → Plane
plane_at planes i = get_or planes i no_plane

grown-le : (held : Option ℕ) (bytes : ℕ) → bytes ≤ grown held bytes
unfolding grown
grown-le none bytes = omega arith
grown-le (some held) bytes = ground arith

length-copy_planes :
    (picture : Picture) (i n : ℕ) (planes : List Plane)
    → length (copy_planes picture i n planes) ≡ length planes
unfolding copy_planes
length-copy_planes picture i zero [] = refl
length-copy_planes picture i zero (plane ∷ planes) =
    ap suc (length-copy_planes picture (suc i) zero planes)
length-copy_planes picture i (suc n) [] = refl
length-copy_planes picture i (suc n) (plane ∷ planes) =
    ap suc (length-copy_planes picture (suc i) n planes)

length-emptied : (planes : List Plane) → length (emptied planes) ≡ length planes
length-emptied [] = refl
length-emptied (plane ∷ planes) = ap suc (length-emptied planes)

-- A picture that waits has a buffer for all its pixels.
abbrev pub IsReadable : Cpu → Type 0
IsReadable cpu =
    (length cpu.planes ≡ 8) × (cpu.has_frame ≡ true → Holds cpu.rgba (rgba_bytes cpu.shape))

pick-IsReadable :
    (b : Bool) (x y : Cpu) → IsReadable x → IsReadable y → IsReadable (if b then x else y)
pick-IsReadable true x y h k = h
pick-IsReadable false x y h k = k

pub convert-IsReadable :
    (opens : Shape → Bool) (picture : Picture) (cpu : Cpu)
    → IsReadable cpu
    → IsReadable (convert opens picture cpu)
unfolding convert
convert-IsReadable opens picture cpu (l, h) =
    pick-IsReadable _ _ _ (l, λ e. absurd (true≢false (sym e)))
      (
        length-copy_planes picture 0 (plane_count picture.format) cpu.planes ∙ l,
        λ e. grown-le cpu.rgba (rgba_bytes (shape_of picture)),
      )

pub upload-IsReadable :
    (creates : Shape → Bool) (cpu : Cpu) → IsReadable cpu → IsReadable (upload creates cpu).1
unfolding upload
upload-IsReadable creates cpu (l, h) =
    elim (Bool-cases (cpu.shape.width == 0 || (cpu.shape.height == 0 || not (is_some cpu.rgba)))) [
      | inl e ↦ rw e (l, λ f. absurd (true≢false (sym f)))
      | inr e ↦ rw e (l, λ f. absurd (true≢false (sym f)))
    ]

pub free_cpu-IsReadable : (cpu : Cpu) → IsReadable cpu → IsReadable (free_cpu cpu)
unfolding free_cpu
free_cpu-IsReadable cpu (l, h) = (length-emptied cpu.planes ∙ l, λ e. absurd (true≢false (sym e)))

-- Made for a shape with the same format and size.
abbrev pub IsFor : Option Shape → Shape → Type 0
IsFor none shape = true ≡ false
IsFor (some made) shape = same_shape made shape ≡ true

-- The rows of a plane of a 4:2:0 picture of an even height: the luma has one for each row of the picture, the
-- chroma one for each two.
abbrev pub IsRow : ℕ → ℕ → ℕ → Type 0
IsRow zero row height = row < height
IsRow (suc plane) row height = 2 * row < height
