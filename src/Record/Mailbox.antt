-- ===== src/Record/Mailbox.antt =====
-- `SoaMailbox` of dns/record/soa/mod.rs: an email address as the RNAME of an SOA record.
use bindizr.Base.{
  ℕ, Bool, true, false, ◌||◌, List, [], ◌∷◌, ◌++◌, append_assoc, append-nil, Option, none, some,
  nat_eq, ◌==◌, if◌then◌else◌, is_empty, ◌≡◌, ◌≢◌, refl, sym, ap, ◌∙◌, Bool-cases, ne-is_empty, inl,
  inr,
}
use bindizr.Text.{Str, codes}
use bindizr.Text.Trim.{trim_end_dots, trim_end_by-append, is_dot, trim_end_by}
use bindizr.Text.Split.{split, join, LacksChar, split-join}

abbrev must_escape : ℕ → Bool
must_escape c = c == b'.' || c == b'\\'

unfoldable pub escape_local_part : Str → Str
escape_local_part [] = []
escape_local_part (c ∷ s) =
    if must_escape c then b'\\' ∷ c ∷ escape_local_part s else c ∷ escape_local_part s

-- An address has one `@`: two parts.
abbrev pub mailbox_of : List Str → Option Str
mailbox_of (local ∷ domain ∷ []) =
    some (escape_local_part local ++ (codes "." ++ (trim_end_dots domain ++ codes ".")))
mailbox_of _ = none

-- `SoaMailbox::from_email`
unfoldable pub from_email : Str → Option Str
unfolding escape_local_part split
from_email email = mailbox_of (split b'@' email)

-- The first dot that is not escaped ends the local part.
abbrev pub address : Str → Str → Option Str
address local domain =
    if is_empty local || is_empty domain then none else some (local ++ (codes "@" ++ domain))

or-eq-false : (a b : Bool) → (a || b) ≡ false → (a ≡ false) × (b ≡ false)
or-eq-false true b h = cc
or-eq-false false b h = (refl, h)

-- The loop of `to_email`: whether a backslash was just read, what is left, and the local part.
unfoldable pub scan_mailbox : Bool → Str → Str → Option Str
scan_mailbox escaped [] local = none
scan_mailbox true (c ∷ s) local = scan_mailbox false s (local ++ c ∷ [])
scan_mailbox false (c ∷ s) local =
    let slash = c == b'\\' in
    let rest = scan_mailbox slash s (if slash then local else local ++ c ∷ []) in
    if c == b'.' then address local s else rest

-- `SoaMailbox::to_email`
unfoldable pub to_email : Str → Option Str
unfolding scan_mailbox
to_email mailbox = scan_mailbox false (trim_end_dots mailbox) []

scan_mailbox-escape_local_part :
    (local domain done : Str)
    → scan_mailbox false (escape_local_part local ++ (b'.' ∷ domain)) done
      ≡ address (done ++ local) domain
unfolding scan_mailbox escape_local_part
scan_mailbox-escape_local_part [] domain done = rw (append-nil done)
scan_mailbox-escape_local_part (c ∷ s) domain done =
    let ih = scan_mailbox-escape_local_part s domain (done ++ c ∷ []) in
    let moved = append_assoc done (c ∷ []) s in
    elim (Bool-cases (must_escape c)) [
      | inl special ↦ rw special (ih ∙ ap (λ l. address l domain) moved)
      | inr plain ↦
          let (not_dot, not_slash) = or-eq-false (c == b'.') (c == b'\\') plain in
          rw (plain, not_dot, not_slash) (ih ∙ ap (λ l. address l domain) moved)
    ]

trim_end_dots-dot : (s : Str) → trim_end_dots (s ++ codes ".") ≡ trim_end_dots s
unfolding trim_end_by
trim_end_dots-dot [] = refl
trim_end_dots-dot (c ∷ s) = rw (trim_end_dots-dot s)

trim_mailbox :
    (local domain : Str)
    → domain ≢ []
    → trim_end_dots domain ≡ domain
    → trim_end_dots (local ++ b'.' ∷ (domain ++ codes ".")) ≡ local ++ b'.' ∷ domain
trim_mailbox local domain d trimmed =
    let dotted = trim_end_by-append is_dot (codes ".") domain d trimmed in
    ap trim_end_dots (sym (append_assoc local (b'.' ∷ domain) (codes ".")))
    ∙ trim_end_dots-dot (local ++ b'.' ∷ domain)
    ∙ trim_end_by-append is_dot local (b'.' ∷ domain) (λ e. cc) dotted

-- An address with one `@`, a local part, and a domain with no dot behind it is read back from its
-- mailbox, whatever dots and backslashes the local part has.
pub to_email-from_email :
    (local domain : Str)
    → local ≢ []
    → domain ≢ []
    → LacksChar b'@' local
    → LacksChar b'@' domain
    → trim_end_dots domain ≡ domain
    → (m : Str) × (from_email (local ++ b'@' ∷ domain) ≡ some m)
      × (to_email m ≡ some (local ++ b'@' ∷ domain))
unfolding from_email to_email join
to_email-from_email local domain l d no_at no_at' trimmed =
    let parts = split-join b'@' (local ∷ domain ∷ []) (λ e. cc) (no_at, (no_at', tt)) in
    (
      escape_local_part local ++ b'.' ∷ (domain ++ codes "."),
      rw (parts, trimmed) refl,
      rw (trim_mailbox (escape_local_part local) domain d trimmed) (
          scan_mailbox-escape_local_part local domain []
          ∙ rw (ne-is_empty local l, ne-is_empty domain d) refl),
    )
