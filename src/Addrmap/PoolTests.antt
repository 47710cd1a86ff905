-- ===== src/Addrmap/PoolTests.antt =====
-- Runs of a dynamic pool of three addresses, and of its state file.
use clatto.Base.{
  ℕ, ◌≡◌, refl, arith, ltb, Bool, true, false, ◌&&◌, if◌then◌else◌, Option, none, some, List, [],
  ◌∷◌, ok,
}
use clatto.Netutil.{Addr4, Addr6, classify4}
use clatto.Netip.{Addr, zero_addr, v4, v6, Prefix, is_masked}
use clatto.Xlate.Packet.Parse4.{is_invalid4}
use clatto.Addrmap.Pool.{
  Pool, new_pool, is_used, find_off, delete_off, update_off, find6, insert6, delete6, addr_of,
  activate, deref, pool_lookup4,
}
use clatto.Addrmap.Pool.Assign.{
  pool_lookup6, assign, assign_new, scan_free, hash6, fold_hash, take_free,
}
use clatto.Addrmap.Pool.Maintain.{maintain}
use clatto.Addrmap.Pool.StateFile.{Texts, read}
use clatto.Addrmap.Pool.StateFile.Reading.{IsParser}
use clatto.Addrmap.Pool.Invariant.{IsPool}
use clatto.Addrmap.Pool.Invariant.Empty.{IsAddr4, new_pool-IsPool}
use clatto.Addrmap.Pool.Invariant.Operations.{pool_lookup6-IsPool}
use clatto.Addrmap.Pool.History.{
  Reach, looked_up6, maintained, loaded, start, then_step, Reach-new_pool,
}
use clatto.Addrmap.Pool.Scan.{IsFree}
use clatto.Addrmap.Pool.Progress.{pool_lookup6_progress}
use clatto.Addrmap.Pool.Found.{pool_lookup4-pool_lookup6, pool_lookup6_apart}

-- A text is what it is parsed to.
data Field : Type 0 where
  address : Addr → Field
  number : ℕ → Field
  hash : Field

abbrev is_bytes4 : Addr4 → Bool
is_bytes4 a = ltb a.0 256 && ltb a.1 256 && ltb a.2 256 && ltb a.3 256

abbrev parse_field : Field → Option Addr
parse_field (address (v4 a)) = if is_bytes4 a then some (v4 a) else none
parse_field (address a) = some a
parse_field _ = none

abbrev number_of : Field → Option ℕ
number_of (number n) = some n
number_of _ = none

abbrev is_hash : Field → Bool
is_hash hash = true
is_hash _ = false

abbrev fields : Texts Field
fields = record {
  parse_addr = parse_field;
  parse_int = number_of;
  is_comment = is_hash;
  show_addr = address;
  show_int = number;
}

parser : IsParser fields
parser = record { bytes = parsed }
  where
    parsed : (x : Field) (a : Addr4) → parse_field x ≡ some (v4 a) → IsAddr4 a
    parsed (address (v4 b)) a h = ground arith
    parsed (address (v6 b)) a h = ground arith
    parsed (address zero_addr) a h = ground arith
    parsed (number n) a h = ground arith
    parsed hash a h = ground arith

abbrev prefix : Prefix
prefix = record { addr = v4 (192, 0, 5, 0); bits = 30 }

abbrev empty : Pool
empty = record {
  prefix = prefix;
  base = 0xc0000500;
  max = 3;
  min_lease = 7440;
  max_lease = 1209600;
  used = 1 ∷ [];
  by4 = [];
  mapped = [];
  dormant = [];
  dirty = false;
  log = [];
}

made : new_pool prefix 0 0 ≡ ok empty
unfolding new_pool is_masked is_invalid4 classify4
made = refl

small : IsAddr4 (192, 0, 5, 0)
small = omega arith

abbrev guest : Addr6
guest = (0x20, 1, 0x0d, 0xb8, 0, 0, 0, 0, 0, 0, 0, 0, 0, 0, 0, 9)

abbrev all_free : Addr4 → Bool
all_free a = false

-- A line of a state file, the guest's lookup after it, and a pass of Maintain.
abbrev line : List Field
line = address (v4 (192, 0, 5, 2)) ∷ address (v6 guest) ∷ number 90 ∷ []

abbrev with_line : Pool
with_line = (read fields all_free 100 empty (line ∷ []) false).1

abbrev with_guest : Pool
with_guest = (pool_lookup6 all_free with_line 20000 guest true).1

history : Reach fields empty (maintain 20001 with_guest)
history =
    then_step empty with_guest (maintain 20001 with_guest)
      (then_step empty with_line with_guest
        (then_step empty empty with_line (start empty)
          (loaded empty all_free 100 (line ∷ []) false))
        (looked_up6 with_line all_free 20000 guest true))
      (maintained with_guest 20001)

Reach-new_pool_example : IsPool (maintain 20001 with_guest)
Reach-new_pool_example =
    Reach-new_pool fields parser prefix (192, 0, 5, 0) 0 0 empty (maintain 20001 with_guest) refl
      small made history

empty-IsPool : IsPool empty
empty-IsPool = new_pool-IsPool prefix 0 0 (192, 0, 5, 0) empty refl small made

second-IsFree : IsFree all_free empty 2
unfolding is_used
second-IsFree = record { nonzero = refl; unused = refl; allowed = refl }

pool_lookup6_progress_example :
    (b : Addr4) × ((pool_lookup6 all_free empty 100 guest true).0 ≡ some b)
pool_lookup6_progress_example =
    pool_lookup6_progress all_free empty 2 100 guest empty-IsPool (omega arith) second-IsFree

given : (pool_lookup6 all_free empty 100 guest true).0 ≡ some (192, 0, 5, 2)
unfolding pool_lookup6 deref find6 assign assign_new scan_free hash6 fold_hash is_used take_free
    addr_of
given = refl

pool_lookup4-pool_lookup6_example :
    (pool_lookup4 (pool_lookup6 all_free empty 100 guest true).1 300 (192, 0, 5, 2)).0 ≡ some guest
pool_lookup4-pool_lookup6_example =
    pool_lookup4-pool_lookup6 all_free empty 100 300 guest true (192, 0, 5, 2) empty-IsPool given

abbrev one_guest : Pool
one_guest = (pool_lookup6 all_free empty 100 guest true).1

kept : (pool_lookup6 all_free one_guest 200 guest false).0 ≡ some (192, 0, 5, 2)
unfolding pool_lookup6 deref find6 find_off insert6 delete6 update_off delete_off activate assign
    assign_new scan_free hash6 fold_hash is_used take_free addr_of
kept = refl

pool_lookup6_apart_example : guest ≡ guest
pool_lookup6_apart_example =
    pool_lookup6_apart all_free one_guest 200 guest guest (192, 0, 5, 2)
      (pool_lookup6-IsPool all_free empty 100 guest true empty-IsPool) kept kept
