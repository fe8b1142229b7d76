-- ===== src/Cuecat/Examples.antt =====
-- The decoder of the CueCat's output at concrete scans.
use semicomplete_googlecode.Common.{◌≡◌, some, [], ◌∷◌, ◌++◌, arith, codes}
use semicomplete_googlecode.Cuecat.{decodecat}
use semicomplete_googlecode.Cuecat.Written.{
  Group, bytes, push_all, cue_of, IsGroup, scan_text, decodecat-scan_text,
}
use semicomplete_googlecode.Cuecat.Scans.{decodecat_total, Few}
use semicomplete_googlecode.Common.Returns.{Returns}

-- A scan that is cut off.
decodecat_total_example : Returns Few (decodecat (codes ".C3nZC3nZ.cGf2." ++ 0 ∷ []))
decodecat_total_example = decodecat_total (codes ".C3nZC3nZ.cGf2.")

abbrev serial : Group
serial = record { x = b'0'; y = b'1'; z = b'2' }

abbrev kind : Group
kind = record { x = b'C'; y = b'C'; z = b'!' }

serial-IsGroup : IsGroup serial
serial-IsGroup = record { x_byte = omega arith; y_byte = omega arith; z_byte = omega arith }

kind-IsGroup : IsGroup kind
kind-IsGroup = record { x_byte = omega arith; y_byte = omega arith; z_byte = omega arith }

decodecat-scan_text_example :
    decodecat (scan_text (serial ∷ []) (kind ∷ []) (serial ∷ []))
    ≡ some (record {
      header = [];
      device = bytes (serial ∷ []);
      code_type = bytes (kind ∷ []);
      barcode = bytes (serial ∷ []);
      cue = cue_of (push_all (bytes (kind ∷ [])) []) (push_all (bytes (serial ∷ [])) []);
      trailer = [];
    })
decodecat-scan_text_example =
    decodecat-scan_text (serial ∷ []) (kind ∷ []) (serial ∷ []) (serial-IsGroup, tt)
      (kind-IsGroup, tt) (serial-IsGroup, tt) (omega arith) (omega arith) (omega arith)
