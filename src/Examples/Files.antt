-- ===== src/Examples/Files.antt =====
-- A file system in memory for the examples: the files' contents by their paths.
use coordino.Base.{
  ◌≡◌, refl, sym, ap, ◌∙◌, arith, true, false, Option, none, some, Bytes, bytes, bytes_eq, Result,
  ok, err, beq_of_ne,
}
use coordino.Base.GoMap.{GoMap, lookup, insert, delete, lookup-insert, lookup-insert_self}
use coordino.Ipam.Checkpoint.{FileSystem}
use coordino.Ipam.Checkpoint.Files.{Lawful}

abbrev Disk : Type 0
Disk = GoMap Bytes Bytes

abbrev read_result : Option Bytes → Result Bytes Bytes
read_result none = err (bytes "no such file")
read_result (some c) = ok c

abbrev read : Disk → Bytes → Result Bytes Bytes
read d p = read_result (lookup p d)

abbrev move : Disk → Bytes → Bytes → Option Bytes → Disk × Option Bytes
move d p q none = (d, some (bytes "no such file"))
move d p q (some c) = (insert q c (delete p d), none)

abbrev pub memory : FileSystem
memory = record {
  State = Disk;
  write_file = λ d p c. (insert p c d, none);
  rename = λ d p q. move d p q (lookup p d);
  read_file = read;
  exists = λ d p. elim (lookup p d) [ none ↦ false | some c ↦ true ];
}

moved :
    (d : Disk) (p q : Bytes) (o : Option Bytes)
    → lookup p d ≡ o
    → (move d p q o).1 ≡ none
    → read (move d p q o).0 q ≡ read d p
moved d p q none h e = absurd (ground (arith, e))
moved d p q (some c) h e = ap read_result (lookup-insert_self q c (delete p d) ∙ sym h)

unmoved :
    (d : Disk) (p q e : Bytes) (o : Option Bytes)
    → (move d p q o).1 ≡ some e
    → read (move d p q o).0 q ≡ read d q
unmoved d p q e none h = refl
unmoved d p q e (some c) h = absurd (ground (arith, h))

pub memory-Lawful : Lawful memory
memory-Lawful = record {
  reads_written = λ d p c h. ap read_result (lookup-insert_self p c d);
  write_keeps =
      λ d p q c h. ap read_result (ground (arith, lookup-insert p q c d, beq_of_ne p q h));
  reads_renamed = λ d p q h. moved d p q (lookup p d) refl h;
  rename_fails = λ d p q e h. unmoved d p q e (lookup p d) h;
}
