-- ===== src/Parse/Pointer/Lookup.antt =====
-- Positions and names lead to the same place.
use ucall.Prelude.{
  ℕ, ◌^◌, ◌≤◌, ◌<◌, ◌≡◌, inl, inr, refl, sym, ap, ◌∙◌, false, ◌++◌, Bytes, codes, length,
  length-append, arith, ◌==◌,
}
use ucall.Charconv.{print_nat}
use ucall.Charconv.RoundTrip.{print_nat_head, length-print_nat-le}
use ucall.Parse.Dom.{Dom}
use ucall.Parse.Pointer.{
  json_pointer_capacity, write_name, look_up, point_to_name, point_to_position,
}
use ucall.Parse.Pointer.Bounds.{name_pointer, Writes, write_name-Writes, write_position_lem}

name_pointer-print_nat :
    (n : ℕ) → n < 2 ^ 64 → name_pointer (print_nat n) ≡ codes "/params/" ++ print_nat n
name_pointer-print_nat n h =
    let (c, s, e, d) = print_nat_head n h in
    let no_slash : (c == b'/') ≡ false = ground arith in rw (e, no_slash) refl

module _ {E D : Type 0} (dom : Dom E D) (tree : E) (json_pointer : Bytes) where
  look_up_name :
      (name : Bytes)
      → length (name_pointer name) ≤ json_pointer_capacity
      → Writes (name_pointer name) (write_name json_pointer name)
      → point_to_name dom tree json_pointer name ≡ dom.at_pointer tree (name_pointer name)
  unfolding point_to_name look_up
  look_up_name name fits (inl (le, (memory, run, text, len))) =
      ap (look_up dom tree) run ∙ ap (dom.at_pointer tree) text
  look_up_name name fits (inr (long, run)) = absurd (omega arith)

  -- A position leads to the element that its decimal digits lead to as a name: both ask for the pointer
  -- `/params/` and the digits.
  pub point_to_position-name :
      (position : ℕ)
      → length json_pointer ≡ json_pointer_capacity
      → position < 2 ^ 64
      → (point_to_position dom tree json_pointer position
          ≡ dom.at_pointer tree (codes "/params/" ++ print_nat position))
        × (point_to_name dom tree json_pointer (print_nat position)
            ≡ point_to_position dom tree json_pointer position)
  unfolding point_to_position look_up
  point_to_position-name position h small =
      let (memory, run, text, len) = write_position_lem json_pointer position h small in
      let there : point_to_position dom tree json_pointer position
          ≡ dom.at_pointer tree (codes "/params/" ++ print_nat position) =
        ap (look_up dom tree) run ∙ ap (dom.at_pointer tree) text in
      let pointer = name_pointer-print_nat position small in
      let short = length-print_nat-le 20 position (omega arith) (omega arith) in
      (
        there,
        look_up_name (print_nat position)
              (omega (
                arith,
                short,
                ap length pointer,
                length-append (codes "/params/") (print_nat position),
              ))
              (write_name-Writes json_pointer (print_nat position) h)
            ∙ ap (dom.at_pointer tree) pointer
            ∙ sym there,
      )
