-- ===== src/LineService/Remains.antt =====
-- What the server of week5/teht3_server.c prints of one client, whose address stands in the array of the reads.
use posix_network_programmin.Prelude.{
  ℕ, ◌-◌, ◌<◌, ◌≡◌, ◌≢◌, refl, sym, ap, ◌∙◌, [], ◌∷◌, ◌++◌, arith, All-append, length,
  length-append, drop, append_assoc,
}
use posix_network_programmin.Cstring.{Bytes, fresh, overwrite}
use posix_network_programmin.Cstring.Laws.{IsText, c_str-append, length-overwrite}
use posix_network_programmin.Cstring.Blocks.{
  block, block-terminated, length-block, overwrite-block, overwrite-over, c_str-block, clear-whole,
}
use posix_network_programmin.Cstring.Remains.{drop-IsText}
use posix_network_programmin.Posix.{write, returned, stdout_fileno}
use posix_network_programmin.Posix.Accept.{dotted}
use posix_network_programmin.Posix.Dotted.{dotted-IsText, length-dotted}
use posix_network_programmin.LineService.{show_turn}

-- The array with the address in it.
address-in : (addr : ℕ) → overwrite (dotted addr ++ 0 ∷ []) (fresh 1024) ≡ block 1024 (dotted addr)
address-in addr =
    let text = dotted addr in
    let size = length-append text (0 ∷ []) in
    let short = length-dotted addr in
    let left : 1024 - length (text ++ 0 ∷ []) ≡ 1024 - length text - 1 = omega (arith, size) in
    overwrite-block 1024 (text ++ 0 ∷ []) (omega (arith, size, short))
    ∙ append_assoc text (0 ∷ []) _
    ∙ ap (λ k. text ++ 0 ∷ fresh k) left
    ∙ sym (block-terminated 1024 text (omega (arith, short)))

-- What the array shows of a text that was read over the address.
abbrev pub over_address : Bytes → ℕ → Bytes
over_address s addr = s ++ drop (length s) (dotted addr)

-- The first read of a client, over its address.
pub first_turn_lem :
    (addr : ℕ) (s : Bytes)
    → IsText s
    → length s < 1024
    → show_turn (overwrite (dotted addr ++ 0 ∷ []) (fresh 1024)) s
      ≡ (write stdout_fileno (over_address s addr) ∷ [], returned (fresh 1024))
unfolding show_turn
first_turn_lem addr s t short =
    let old = block 1024 (dotted addr) in
    let (tail, over) =
      overwrite-over 1024 s (dotted addr) short (omega (arith, length-dotted addr)) in
    let whole = over_address s addr ++ 0 ∷ tail in
    let size : length whole ≡ 1024 =
      ap length (sym over)
      ∙ length-overwrite s old
      ∙ length-block 1024 (dotted addr) (omega (arith, length-dotted addr)) in
    rw
      (
        address-in addr,
        over,
        c_str-append (over_address s addr) tail (
            All-append (λ c. c ≢ 0) s (drop (length s) (dotted addr)) t
              (drop-IsText (length s) (dotted addr) (dotted-IsText addr))),
        clear-whole 1024 whole size,
      )
      refl

-- A later read.
pub later_turn_lem :
    (s : Bytes)
    → IsText s
    → length s < 1024
    → show_turn (fresh 1024) s ≡ (write stdout_fileno s ∷ [], returned (fresh 1024))
unfolding show_turn
later_turn_lem s t short =
    rw
      (
        overwrite-block 1024 s (omega arith),
        c_str-block 1024 s t short,
        clear-whole 1024 (block 1024 s) (length-block 1024 s (omega arith)),
      )
      refl
