-- ===== src/Bcode/Value.antt =====
-- src/bcode.h: `struct bcode`. The array of a dictionary holds keys and values in turn, as
-- `struct barray` does. Memory for values is taken to be available.
use libctorrent.Prelude.{ℕ, List}
use libctorrent.Prelude.Int.{ℤ}

mutual
  pub data BCode : Type 0 where
    int : ℤ → BCode
    str : List ℕ → BCode
    list : Items → BCode
    dict : Items → BCode

  pub data Items : Type 0 where
    nil : Items
    cons : BCode → Items → Items
