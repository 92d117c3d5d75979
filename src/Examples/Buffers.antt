-- ===== src/Examples/Buffers.antt =====
-- tecc_buffer.c at concrete buffers.
use tecc.Base.{
  ℕ, zero, suc, ◌≤◌, length, ◌≡◌, inl, inr, refl, true, false, none, some, List, [], ◌∷◌, ◌++◌,
  arith,
}
use tecc.Base.Int.{pos, negsuc, ◌+ℤ◌}
use tecc.Base.Run.{Run, ok, fault, ◌>>=◌, Returns}
use tecc.Buffer.Bytes.{splice, memcpy, peek}
use tecc.Buffer.Defs.{
  int_size, Buffer, Env, on_error, move_contents, realloc_buffer, first_capacity, raise_capacity,
  ensure_capacity, init, done, write, read, seek, seek_set, seek_cur, seek_end, new_position,
  move_to, is_null, step_back, puts,
}
use tecc.Buffer.Growth.{IsValid, view}
use tecc.Buffer.Writing.{Written, write-Written}
use tecc.Buffer.Access.{Got, read-Got, read-seek-write}
use tecc.Buffer.Overrun.{write-fault, write-refused}
use tecc.Buffer.Text.{Appended, puts-Appended}
use tecc.Buffer.Lifetime.{blank}
use tecc.Buffer.Hex.{byte_at, char_value, to_hex_chars, hex_loop, hex_fill, hex_length, as_hex}
use tecc.Buffer.HexText.{hex_text, read_hex, read_hex-hex_text}
use tecc.Buffer.Printing.{Dumped}
use tecc.Buffer.Dump.{as_hex-Dumped, as_hex-fault, selected}
use tecc.Buffer.Table.{
  hex_table_header, print_prefix, c_string, begin_row, table_cell, table_rows, has_no_data,
  as_table,
}
use tecc.Buffer.Tabling.{table_text, as_table-table_text}
use tecc.Buffer.Json.{put_content, put_label, json}
use tecc.Base.Codes.{codes}

program : Unit {0}
unfolding int_size splice memcpy peek on_error move_contents realloc_buffer first_capacity
    raise_capacity ensure_capacity init done write read seek new_position move_to is_null step_back
    puts ◌+ℤ◌ byte_at char_value to_hex_chars hex_loop hex_fill hex_length as_hex hex_text read_hex
    hex_table_header print_prefix c_string begin_row table_cell table_rows has_no_data as_table
    put_content put_label json
program = tt

abbrev granting : Env
granting = record { can_alloc = λ _. true; on_buffer_error = none }

abbrev refusing : Env
refusing = record { can_alloc = λ _. false; on_buffer_error = none }

abbrev bytes_held : Run (ℕ × Buffer) → Run (List ℕ)
bytes_held r = r >>= λ r. ok (view r.1)

-- "hello" in a block of 8, with the position behind "he".
abbrev hello : Buffer
hello = record {
  contents = 104 ∷ 101 ∷ 108 ∷ 108 ∷ 111 ∷ 0 ∷ 0 ∷ 0 ∷ [];
  pos = 2;
  size = 5;
  capacity = 8;
  block_size = 4;
}

hello-IsValid : IsValid hello
hello-IsValid = record {
  block = refl;
  within = omega arith;
  filled = omega arith;
  has_block_size = omega arith;
  roomy = inr (omega arith);
}

-- "hello" and a null byte, with the position at the end.
abbrev hello_text : Buffer
hello_text = record hello { pos = 6; size = 6 }

hello_text-IsValid : IsValid hello_text
hello_text-IsValid = record {
  block = refl;
  within = omega arith;
  filled = omega arith;
  has_block_size = omega arith;
  roomy = inr (omega arith);
}

abbrev words : List ℕ
words = 119 ∷ 111 ∷ 114 ∷ 108 ∷ 100 ∷ 115 ∷ 33 ∷ []

blank_80-IsValid : IsValid (blank 80 0)
blank_80-IsValid = record {
  block = refl;
  within = omega arith;
  filled = omega arith;
  has_block_size = omega arith;
  roomy = inl refl;
}

write-Written_example : Returns (write granting hello words) (Written hello words)
write-Written_example =
    write-Written granting words (λ _. refl) hello-IsValid (omega arith) (inl (omega arith))

-- The write passes the block's end.
write_grows : bytes_held (write granting hello words) ≡ ok (104 ∷ 101 ∷ words)
unfolding program
write_grows = refl

read-Got_example : Returns (read hello 10) (Got hello 10)
read-Got_example = read-Got 10 hello-IsValid (omega arith) (omega arith)

seek_runs :
    ((seek hello (negsuc 2) seek_end).1.pos ≡ 2) × ((seek hello (negsuc 2) seek_cur).0 ≡ negsuc 0)
unfolding program
seek_runs = (refl, refl)

read-seek-write_example :
    Returns
      (do (_, t) ← write granting hello words; read (seek t (pos 2) seek_set).1 7)
      λ r. (r.0 ≡ 7) × (r.1 ≡ words)
read-seek-write_example =
    read-seek-write granting words (λ _. refl) hello-IsValid (omega arith) (inl (omega arith))

write-fault_example : write granting (blank 4 0) words ≡ fault
write-fault_example =
    write-fault granting words (λ _. refl)
      (record {
        block = refl;
        within = omega arith;
        filled = omega arith;
        has_block_size = omega arith;
        roomy = inl refl;
      })
      refl (omega arith) (omega arith)

write-refused_example : write refusing hello words ≡ fault
write-refused_example =
    write-refused refusing words (λ _. refl) refl hello-IsValid (omega arith) (inl (omega arith))
      (omega arith) (omega arith)

puts-Appended_example : Returns (puts granting hello_text (some words)) (Appended hello_text words)
puts-Appended_example =
    puts-Appended granting words (λ _. refl) hello_text-IsValid refl (omega arith) (omega arith)
      (omega arith) (inl (omega arith))

puts_runs :
    bytes_held (puts granting hello_text (some words))
    ≡ ok (104 ∷ 101 ∷ 108 ∷ 108 ∷ 111 ∷ words ++ 0 ∷ [])
unfolding program
puts_runs = refl

as_hex-Dumped_example :
    Returns (as_hex granting true hello (pos 1) 0) (Dumped (selected hello (pos 1) 0))
as_hex-Dumped_example =
    as_hex-Dumped granting true (pos 1) 0 (λ _. refl) hello-IsValid (omega arith) (omega arith)
      (omega arith)

as_hex-fault_example :
    as_hex granting true
      (record hello { contents = 104 ∷ 200 ∷ 108 ∷ 108 ∷ 111 ∷ 0 ∷ 0 ∷ 0 ∷ [] })
      (pos 0)
      0
    ≡ fault
as_hex-fault_example =
    as_hex-fault granting (pos 0) 0 (104 ∷ []) (108 ∷ 108 ∷ 111 ∷ []) 200 (λ _. refl)
      (record {
        block = refl;
        within = omega arith;
        filled = omega arith;
        has_block_size = omega arith;
        roomy = inr (omega arith);
      })
      (omega arith) (omega arith) (omega arith) refl (omega arith) (omega arith) (omega arith)
      (omega arith)

-- A new line and a letter.
as_hex_runs :
    (as_hex granting true
        (record hello { contents = 10 ∷ 104 ∷ []; size = 2; capacity = 2 })
        (pos 0)
        0
      >>= λ r. ok (view r))
    ≡ ok (48 ∷ 65 ∷ 32 ∷ 104 ∷ [])
unfolding program
as_hex_runs = refl

read_hex-hex_text_example : read_hex (hex_text (0 ∷ 255 ∷ 104 ∷ [])) ≡ 0 ∷ 255 ∷ 104 ∷ []
read_hex-hex_text_example = read_hex-hex_text (0 ∷ 255 ∷ 104 ∷ []) (omega arith)

-- What `%08lu` prints of the two offsets that are printed here.
abbrev two_offsets : ℕ → List ℕ
two_offsets zero = codes "00000000"
two_offsets n = codes "00000064"

two_offsets-le : (n : ℕ) → length (two_offsets n) ≤ 20
two_offsets-le zero = omega arith
two_offsets-le (suc n) = omega arith

as_table-table_text_example :
    Returns
      (as_table granting two_offsets true hello (pos 1) 0)
      λ t. view t ≡ table_text two_offsets (pos 1) (selected hello (pos 1) 0) ++ 0 ∷ []
as_table-table_text_example =
    as_table-table_text granting two_offsets true (pos 1) 0 (λ _. refl) two_offsets-le hello-IsValid
      (omega arith) (omega arith)

-- One blank cell stands before "ello".
as_table_runs :
    (as_table granting two_offsets true hello (pos 1) 0 >>= λ t. ok (view t))
    ≡ ok (hex_table_header ++ (124 ∷ 10 ∷ codes "00000000|   e l l o" ++ 0 ∷ []))
unfolding program
as_table_runs = refl

json_runs :
    (json granting (λ b. codes "{}") hello (some (codes "hello")) 0 >>= λ t. ok (view t))
    ≡ ok (codes "\"hello\": {}" ++ 0 ∷ [])
unfolding program
json_runs = refl
