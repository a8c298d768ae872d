-- ===== src/Session/Ids/Dotted.antt =====
-- The identifiers of packages and those of the session daemon.
use pen_lvgl.Prelude.{
  ℕ, ◌≡◌, refl, Bool, true, false, ◌&&◌, ◌||◌, List, [], ◌∷◌, ltb, leb, ◌==◌, if◌then◌else◌, length,
  any, arith,
}
use pen_lvgl.Package.Text
use pen_lvgl.Session.Ids.{scan_session_id, valid_session_app_id}

abbrev pub is_dot : ℕ → Bool
is_dot c = c == b'.'

-- One round of the two loops: behind a separator and behind another character.
branches :
    (dot hyphen ordinary s d dots a b t u : Bool)
    → a ≡ (t && ((d || dot) || dots))
    → b ≡ (u && (d || dots))
    → (if dot || hyphen then if s then false else a else if ordinary then b else false) ≡ (
        (if dot || hyphen then if s then false else t else if ordinary then u else false)
        && (d || (dot || dots)))
branches true hyphen ordinary true d dots a b t u p q = refl
branches true hyphen ordinary false true dots a b t u p q = p
branches true hyphen ordinary false false dots a b t u p q = p
branches false true ordinary true d dots a b t u p q = refl
branches false true ordinary false true dots a b t u p q = p
branches false true ordinary false false dots a b t u p q = p
branches false false true s d dots a b t u p q = q
branches false false false s d dots a b t u p q = refl

-- The two loops from the same flags: a dot among what they read makes the difference.
scan-dotted :
    (s d p : Bool) (cs : List ℕ)
    → (d ≡ true → p ≡ true)
    → scan_session_id s d cs ≡ (Text.scan_id s p cs && (d || any is_dot cs))
unfolding scan_session_id Text.scan_id
scan-dotted s d p [] h = ground (arith, h)
scan-dotted s d p (c ∷ cs) h =
    branches (c == b'.') (c == b'-') ((leb b'a' c && leb c b'z') || (leb b'0' c && leb c b'9')) s d
      (any is_dot cs) _ _ _ _ (scan-dotted true (d || c == b'.') true cs (λ e. refl))
      (scan-dotted false d p cs h)

-- The session daemon takes exactly the identifiers that a package may have, if they contain a dot
-- and have less than 96 bytes.
pub valid_session_app_id-app_id :
    (id : List ℕ)
    → valid_session_app_id id ≡ (Text.app_id id && any is_dot id && ltb (length id) 96)
unfolding valid_session_app_id Text.app_id
valid_session_app_id-app_id id = ground (arith, scan-dotted false false false id (λ e. e))
