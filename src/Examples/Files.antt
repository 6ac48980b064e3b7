-- ===== src/Examples/Files.antt =====
-- kernel/fs.c at concrete inputs: a disk with a file of two blocks, one of them behind its indirect
-- block.
use proj.Common.{
  true, ltb, panic, ◌⊎◌, ◌<◌, ◌+◌, Option, some, ℕ, ◌<◌, ◌≡◌, ◌≢◌, refl, false, List, [], ◌∷◌, ok,
  arith, ◌==◌, ltb, if◌then◌else◌,
}
use proj.Fs.{Disk, Inode, bmap, map_addr, iupdate, itrunc}
use proj.Fileio.{Transfer, Copied, put_bytes, readi, writei, writei_loop}
use proj.Fileio.Roundtrip.{Returned, always, readi-writei}
use proj.Fileio.Write.{Written, writei-Written}
use proj.Fs.Own.{Owns, slot, slots}
use proj.Fs.Map.{After, bmap-After}
use proj.Fs.Trunc.{Emptied, itrunc-Emptied}
use proj.Itable.{Itable, iget, iput}
use proj.Itable.Get.{Gets, Unique, iget-Got}
use proj.Itable.Put.{Put, iput-Put, iput-last}
use proj.Path.{Dirent, namex}
use proj.Path.Walk.{walk_from, namex-walk}

abbrev disk : Disk
disk = record {
  size = 100;
  ninodes = 20;
  used = λ b. ltb b 63;
  word = λ b i. if i == 0 then 62 else 0;
  byte = λ b i. 0;
  dinode = λ n. record { type = 2; nlink = 0; size = 0; addrs = λ k. 0 };
}

abbrev file : Inode
file = record {
  inum = 5;
  type = 2;
  nlink = 0;
  size = 13312;
  addrs = λ k. if k == 0 then 60 else if k == 12 then 61 else 0;
}

file-Owns : Owns file disk
file-Owns = record {
  zero_used = refl;
  in_use = λ k h. ground arith;
  distinct = λ j k h h' nz e. ground arith;
}

bmap_example : (r : ℕ × (Inode × Disk)) × (bmap 14 (file, disk) ≡ ok r) × After file disk 14 r
bmap_example = bmap-After file disk 14 file-Owns (omega arith)

itrunc_example : (r : Inode × Disk) × (itrunc (file, disk) ≡ ok r) × Emptied file disk r
itrunc_example = itrunc-Emptied file disk file-Owns

-- The copies succeed, and the transaction has room.
abbrev smooth : Transfer
smooth = record { copied = λ k. true; part = λ k. 0; room = λ k. true }

-- The copy at byte 2 of the source fails after one byte; there is room for what comes before it.
abbrev faulty : Transfer
faulty = record { copied = λ k. ltb k 2; part = λ k. 1; room = λ k. ltb k 2 }

abbrev source : ℕ → ℕ
source i = 65 + i

writei_example :
    ((writei faulty source 1022 10 (file, disk) ≡ panic)
      × (k : ℕ) × (k < 10)
      × (faulty.room k ≡ false))
    ⊎ (r : Option ℕ × (Inode × Disk)) × (writei faulty source 1022 10 (file, disk) ≡ ok r)
      × Written faulty source 10 1022 file disk r
writei_example =
    writei-Written faulty source 10 1022 file disk file-Owns (omega arith) (omega arith)

-- The disk with three bytes in block 60.
abbrev after_write : Disk
after_write = iupdate file (put_bytes source 0 60 0 3 disk)

first_write : writei smooth source 0 3 (file, disk) ≡ ok (some 3, (file, after_write))
unfolding writei writei_loop bmap map_addr iupdate
first_write = refl

readi-writei_example :
    (r : Copied × (Inode × Disk)) × (readi always 0 3 (file, after_write) ≡ ok r)
    × Returned source 3 r
readi-writei_example =
    readi-writei smooth source 3 0 file file disk after_write file-Owns (omega arith) (omega arith)
      (omega arith) first_write

-- Only entry 0 is referred to, once.
abbrev table : Itable
table = record {
  dev = λ i. 1;
  ref = λ i. if i == 0 then 1 else 0;
  lock = λ i. record { locked = false; pid = 0 };
  valid = λ i. i == 0;
  ip = λ i. file;
  disk = disk;
}

table-Unique : Unique table
table-Unique i j h h' r r' e e' = ground arith

iget_example : Gets 1 9 table (iget 1 9 table)
iget_example = iget-Got 1 9 table table-Unique (λ j. ground arith)

iput_example : (t' : Itable) × (iput 3 0 table ≡ ok t') × Put 0 table t'
iput_example = iput-Put 3 0 table table-Unique file-Owns (omega arith) (omega arith) (λ e. refl)

iput-last_example :
    (t' : Itable) × (iput 3 0 table ≡ ok t')
    × (t'.ref 0 ≡ 0)
    × ((t'.disk.dinode 5).type ≡ 0)
    × ((k : ℕ) → k < slots → slot file disk k ≢ 0 → t'.disk.used (slot file disk k) ≡ false)
iput-last_example = iput-last 3 0 table file-Owns refl refl

-- The root has a file named "a".
abbrev entries : ℕ → List Dirent
entries n = record { inum = 9; name = 97 ∷ [] } ∷ []

-- "/a"
abbrev path : List ℕ
path = 47 ∷ (97 ∷ [])

namex_example : namex entries 3 false 0 path table ≡ walk_from entries 3 false 0 path table
namex_example = namex-walk entries 3 false 0 path table
