-- ===== src/Netutil/Tests.antt =====
-- Runs of the RFC 6052 conversions.
use clatto.Base.{◌≡◌, ◌≤◌, ◌<◌, ◌↔◌, refl, true, false, ok, err}
use clatto.Netutil.{Addr4, Addr6, embed, extract, valid_prefix_len, invalid_prefix_len, panics}
use clatto.Netutil.Embedding.{extract-embed, embed-extract, embed-valid_prefix_len}

abbrev prefix : Addr6
prefix = (0x20, 1, 0x0d, 0xb8, 1, 0x22, 3, 0x44, 0, 0, 0, 0, 0, 0, 0, 0)

abbrev host : Addr4
host = (192, 0, 2, 33)

-- The examples of RFC 6052, section 2.4, for /40 and /96.
abbrev embedded40 : Addr6
embedded40 = (0x20, 1, 0x0d, 0xb8, 1, 192, 0, 2, 0, 33, 0, 0, 0, 0, 0, 0)

embed40 : embed prefix 40 host ≡ ok embedded40
unfolding embed
embed40 = refl

extract40 : extract embedded40 40 ≡ ok host
unfolding extract
extract40 = refl

extract-embed_example : extract embedded40 40 ≡ ok host
extract-embed_example = extract-embed prefix 40 host embedded40 embed40

embed-extract_example : embed embedded40 40 host ≡ ok embedded40
embed-extract_example = embed-extract embedded40 40 host extract40

embed-valid_prefix_len_example :
    ((valid_prefix_len 44 ≡ true) ↔ ((a : Addr6) × (embed prefix 44 host ≡ ok a)))
    × (((valid_prefix_len 44 ≡ false) × (44 < 136))
        ↔ (embed prefix 44 host ≡ err invalid_prefix_len))
    × ((136 ≤ 44) ↔ (embed prefix 44 host ≡ err panics))
embed-valid_prefix_len_example = embed-valid_prefix_len prefix 44 host
