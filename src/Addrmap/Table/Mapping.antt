-- ===== src/Addrmap/Table/Mapping.antt =====
-- Addresses that go through the NAT64 prefix come back.
use clatto.Base.{◌≡◌, arith, true, false, some, ok, ==_refl}
use clatto.Netutil.{Addr4, Addr6, embed}
use clatto.Netutil.Embedding.{extract-embed}
use clatto.Netip.{v4, v6, as16}
use clatto.Addrmap.Entry.{Entry}
use clatto.Addrmap.Build.{Table}
use clatto.Addrmap.Table.{lookup4, embed_in, extract_from, is_valid4, is_forbidden}

-- What the prefix makes of an IPv4 address: it may be translated, and its embedding.
record Embedded (t : Table) (a : Addr4) (e : Entry) (b : Addr6) : Type 0 where
  is_valid : is_valid4 a ≡ true
  allowed : is_forbidden t e.net6 a ≡ false
  embedded : embed (as16 e.net6.addr) e.net6.bits a ≡ ok b

embed_in-Embedded :
    (t : Table) (a : Addr4) (e : Entry) (b : Addr6)
    → embed_in t a e.net6 ≡ ok (v6 b)
    → Embedded t a e b
unfolding embed_in
embed_in-Embedded t a e b h = ground arith

-- An IPv4 address that the table looks up to the prefix `e` and sends through it is what the same
-- table extracts from the IPv6 address that it makes of it.
pub extract_from-embed_in :
    (t : Table) (a : Addr4) (e : Entry) (b : Addr6)
    → lookup4 t (v4 a) ≡ some e
    → embed_in t a e.net6 ≡ ok (v6 b)
    → extract_from t e b ≡ ok (v4 a)
unfolding extract_from
extract_from-embed_in t a e b found h =
    let m = embed_in-Embedded t a e b h in
    let back = extract-embed (as16 e.net6.addr) e.net6.bits a b m.embedded in
    ground (arith, back, m.is_valid, m.allowed, found, ==_refl e.id)
