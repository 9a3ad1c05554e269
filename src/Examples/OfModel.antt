-- ===== src/Examples/OfModel.antt =====
-- Ids, names, previews, digests and metadata.
use passalong.Prelude.{
  ◌≡◌, min, refl, true, ◌&&◌, ◌||◌, none, [], ◌∷◌, ltb, ◌==◌, all, take, length, text_ltb, codes,
  ok, arith, ℤ, pos,
}
use passalong.Model.Hex.{is_lower_hex, hex_fixed}
use passalong.Model.Digest.{
  Bytes, ContentDigest, new, finalize, digest_of, hash_chunks, content_key,
}
use passalong.Model.Digest.Chunks.{concat, finalize-hash_chunks}
use passalong.Model.FileName.{sanitise_file_name}
use passalong.Model.FileName.Safety.{IsSafeName, sanitise_file_name-IsSafeName}
use passalong.Model.Id
use passalong.Model.Id.{ItemId, ContentKey, id_of, parse, id_ltb, timestamp, key_hex_len}
use passalong.Model.Id.Order.{id_ltb_chronological}
use passalong.Model.Id.RoundTrip.{IsValidId, id_of-IsValidId, parse-IsValidId, parse-new}
use passalong.Model.Meta.{ItemMeta, ItemKind, finish_keyed, new_text}
use passalong.Model.Meta.Finish.{Describes, finish_keyed-Describes}
use passalong.Model.Preview.{preview_chars, collapsed, preview_of}
use passalong.Model.Preview.Bounds.{is_inline, preview_of_bounds}
use passalong.Examples.Parameters.{whole_secs, whole_secs-laws, by_length, by_length-laws, zeros}

abbrev key : ContentKey
key = codes "2cf24dba5fb0"

abbrev id : ItemId
id = id_of key 1789206791

key_hex : is_lower_hex key key_hex_len ≡ true
unfolding is_lower_hex
key_hex = refl

made : Id.new whole_secs (pos 1789206791) key ≡ ok id
unfolding Id.new
made = refl

parse-new_example :
    (parse id.repr ≡ ok id)
    × IsValidId id
    × (id.key ≡ key)
    × (whole_secs.timestamp (timestamp whole_secs id) ≡ pos 1789206791)
parse-new_example = parse-new whole_secs whole_secs-laws (pos 1789206791) key id key_hex made

parsed : parse (codes "6aa52107-2cf24dba5fb0") ≡ ok id
unfolding parse is_lower_hex hex_fixed passalong.Model.Hex.from_hex
parsed = refl

parse-IsValidId_example : IsValidId id × (id.repr ≡ codes "6aa52107-2cf24dba5fb0")
parse-IsValidId_example = parse-IsValidId (codes "6aa52107-2cf24dba5fb0") id parsed

abbrev later : ItemId
later = id_of (codes "000000000000") 1789206792

id_ltb_chronological_example : id_ltb id later ≡ (
    ltb 1789206791 1789206792 || (1789206791 == 1789206792 && text_ltb key (codes "000000000000")))
unfolding is_lower_hex
id_ltb_chronological_example =
    id_ltb_chronological id later (id_of-IsValidId key 1789206791 key_hex (omega arith))
      (id_of-IsValidId (codes "000000000000") 1789206792 refl (omega arith))

sanitised : sanitise_file_name (codes "../x/con.txt. ") ≡ ok (codes "_con.txt")
unfolding sanitise_file_name
sanitised = refl

sanitise_file_name-IsSafeName_example : IsSafeName (codes "_con.txt")
sanitise_file_name-IsSafeName_example =
    sanitise_file_name-IsSafeName (codes "../x/con.txt. ") (codes "_con.txt") sanitised

preview_of_bounds_example :
    (length (preview_of (codes " a\n b "))
      ≡ min preview_chars (length (collapsed (codes " a\n b "))))
    × (all is_inline (preview_of (codes " a\n b ")) ≡ true)
    × (take 79 (preview_of (codes " a\n b ")) ≡ take 79 (collapsed (codes " a\n b ")))
preview_of_bounds_example = preview_of_bounds (codes " a\n b ")

finalize-hash_chunks_example :
    finalize by_length (hash_chunks by_length (new by_length) (codes "he" ∷ codes "llo" ∷ []))
    ≡ digest_of by_length (concat (codes "he" ∷ codes "llo" ∷ []))
finalize-hash_chunks_example =
    finalize-hash_chunks by_length by_length-laws (codes "he" ∷ codes "llo" ∷ [])

abbrev digest : ContentDigest
digest = record { sha256 = 5 ∷ zeros 31; size = 5 }

abbrev meta : ItemMeta ℤ
meta = record {
  schema = 1;
  id = id;
  kind = ItemKind.text;
  name = none;
  mime = codes "text/plain; charset=utf-8";
  size = 5;
  sha256 = by_length.hex_encode digest.sha256;
  created_at = pos 1789206791;
  device = codes "laptop";
  preview = none;
  origin = none;
}

finished :
    finish_keyed whole_secs by_length (new_text (codes "laptop")) (pos 1789206791) digest key none
    ≡ ok meta
unfolding finish_keyed Id.new new_text hex_fixed passalong.Model.Digest.sha256_hex timestamp
finished = refl

finish_keyed-Describes_example :
    Describes whole_secs by_length meta digest
    × (meta.id.key ≡ key)
    × (whole_secs.timestamp meta.created_at ≡ pos 1789206791)
    × (meta.kind ≡ ItemKind.text)
    × (meta.name ≡ none)
    × (meta.mime ≡ codes "text/plain; charset=utf-8")
    × (meta.device ≡ codes "laptop")
    × (meta.preview ≡ none)
    × (meta.origin ≡ none)
unfolding new_text
finish_keyed-Describes_example =
    finish_keyed-Describes whole_secs by_length whole_secs-laws (new_text (codes "laptop"))
      (pos 1789206791) digest key none meta key_hex finished
