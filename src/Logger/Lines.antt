-- ===== src/Logger/Lines.antt =====
-- What the lines of the logger tell apart.
use cloud_storage_system.Base.{
  ℕ, ◌≡◌, ◌≢◌, refl, sym, ap, ◌∙◌, Bool, true, ◌&&◌, not, [], ◌∷◌, ◌++◌, ◌==◌, arith, if◌then◌else◌,
}
use cloud_storage_system.Base.Text.{Text, text}
use cloud_storage_system.Logger.{
  line_end, LogLevel, debug_level, info_level, warn_level, error_level, fatal_level,
  level_to_string, Entry, optional_member, fields_text, log_line, component_start,
  correlation_start,
}

-- The text has no quotation mark.
unfoldable pub quote_free : Text → Bool
quote_free [] = true
quote_free (c ∷ cs) = not (c == b'"') && quote_free cs

head_of : Text → ℕ
head_of [] = 0
head_of (c ∷ cs) = c

tail_of : Text → Text
tail_of [] = []
tail_of (c ∷ cs) = cs

append-cancel : (p x y : Text) → p ++ x ≡ p ++ y → x ≡ y
unfolding tail_of
append-cancel [] x y e = e
append-cancel (c ∷ cs) x y e = append-cancel cs x y (ap tail_of e)

-- A text without a quotation mark ends at the first one.
quote-cut :
    (a b x y : Text)
    → quote_free a ≡ true
    → quote_free b ≡ true
    → a ++ b'"' ∷ x ≡ b ++ b'"' ∷ y
    → (a ≡ b) × (x ≡ y)
unfolding quote_free head_of tail_of
quote-cut [] [] x y f g e = (refl, ap tail_of e)
quote-cut [] (d ∷ ds) x y f g e = ground (arith, ap head_of e)
quote-cut (c ∷ cs) [] x y f g e = ground (arith, ap head_of e)
quote-cut (c ∷ cs) (d ∷ ds) x y f g e =
    let (same, rest) = quote-cut cs ds x y (ground arith) (ground arith) (ap tail_of e) in
    (ground (arith, ap head_of e, same), rest)

quote_free-level : (level : LogLevel) → quote_free (level_to_string level) ≡ true
unfolding quote_free level_to_string
quote_free-level debug_level = refl
quote_free-level info_level = refl
quote_free-level warn_level = refl
quote_free-level error_level = refl
quote_free-level fatal_level = refl

-- Reads the name of a level back.
level_of : Text → LogLevel
level_of t =
    if head_of t == b'D'
    then debug_level
    else (if head_of t == b'I'
        then info_level
        else (if head_of t == b'W'
            then warn_level
            else (if head_of t == b'E' then error_level else fatal_level)))

level_of-level_to_string : (level : LogLevel) → level_of (level_to_string level) ≡ level
unfolding level_of level_to_string head_of
level_of-level_to_string debug_level = refl
level_of-level_to_string info_level = refl
level_of-level_to_string warn_level = refl
level_of-level_to_string error_level = refl
level_of-level_to_string fatal_level = refl

-- The fifth byte, by which the two optional members and the end of the line differ.
fifth : Text → ℕ
fifth t = head_of (tail_of (tail_of (tail_of (tail_of t))))

-- A member that is left out where its value is empty, before something that does not look like it.
optional_member-injective :
    (start a b x y : Text)
    → ((r : Text) → fifth (start ++ r) ≢ fifth x)
    → ((r : Text) → fifth (start ++ r) ≢ fifth y)
    → quote_free a ≡ true
    → quote_free b ≡ true
    → optional_member start a x ≡ optional_member start b y
    → (a ≡ b) × (x ≡ y)
unfolding optional_member
optional_member-injective start [] [] x y p q f g e = (refl, e)
optional_member-injective start [] (d ∷ ds) x y p q f g e =
    absurd (p ((d ∷ ds) ++ b'"' ∷ y) (sym (ap fifth e)))
optional_member-injective start (c ∷ cs) [] x y p q f g e =
    absurd (q ((c ∷ cs) ++ b'"' ∷ x) (ap fifth e))
optional_member-injective start (c ∷ cs) (d ∷ ds) x y p q f g e =
    quote-cut (c ∷ cs) (d ∷ ds) x y f g
      (append-cancel start ((c ∷ cs) ++ b'"' ∷ x) ((d ∷ ds) ++ b'"' ∷ y) e)

-- The texts of an entry have no quotation mark.
pub record IsPlain (e : Entry) : Type 0 where
  pub timestamp_plain : quote_free e.timestamp ≡ true
  pub thread_plain : quote_free e.thread ≡ true
  pub message_plain : quote_free e.message ≡ true
  pub component_plain : quote_free e.component ≡ true
  pub correlation_plain : quote_free e.correlation_id ≡ true

end_apart : (r : Text) → fifth (correlation_start ++ r) ≢ fifth (text "}\n")
unfolding fifth head_of tail_of
end_apart r e = ground arith

rest_apart :
    (id : Text) (r : Text)
    → fifth (component_start ++ r) ≢ fifth (optional_member correlation_start id (text "}\n"))
unfolding fifth head_of tail_of optional_member
rest_apart [] r e = ground arith
rest_apart (c ∷ cs) r e = ground arith

plain_end :
    (e : Entry)
    → e.fields ≡ []
    → line_end e
      ≡ optional_member component_start e.component
          (optional_member correlation_start e.correlation_id (text "}\n"))
unfolding line_end fields_text
plain_end e none = rw (none, fields_text) refl

same_entry :
    (e f : Entry)
    → e.timestamp ≡ f.timestamp
    → e.level ≡ f.level
    → e.thread ≡ f.thread
    → e.message ≡ f.message
    → e.component ≡ f.component
    → e.correlation_id ≡ f.correlation_id
    → e.fields ≡ f.fields
    → e ≡ f
same_entry e f times levels threads messages components correlations fields = λ i. record {
  timestamp = times i;
  level = levels i;
  thread = threads i;
  message = messages i;
  component = components i;
  correlation_id = correlations i;
  fields = fields i;
}

-- Entries without fields and quotation marks have the same line only where they are the same: the line
-- tells the time, the level, the thread, the message, the component and the correlation id.
pub log_line-injective :
    (e f : Entry)
    → IsPlain e
    → IsPlain f
    → e.fields ≡ []
    → f.fields ≡ []
    → log_line e ≡ log_line f
    → e ≡ f
unfolding log_line line_end fields_text
log_line-injective e f p q none none' same =
    let (times, s1) =
      quote-cut e.timestamp f.timestamp _ _ p.timestamp_plain q.timestamp_plain
        (append-cancel (text "{\"timestamp\":\"") _ _ same) in
    let (levels, s2) =
      quote-cut (level_to_string e.level) (level_to_string f.level) _ _ (quote_free-level e.level)
        (quote_free-level f.level) (append-cancel (text ",\"level\":\"") _ _ s1) in
    let (threads, s3) =
      quote-cut e.thread f.thread _ _ p.thread_plain q.thread_plain
        (append-cancel (text ",\"thread\":\"") _ _ s2) in
    let (messages, s4) =
      quote-cut e.message f.message _ _ p.message_plain q.message_plain
        (append-cancel (text ",\"message\":\"") _ _ s3) in
    let ends = sym (plain_end e none) ∙ s4 ∙ plain_end f none' in
    let (components, s5) =
      optional_member-injective component_start e.component f.component _ _
        (rest_apart e.correlation_id) (rest_apart f.correlation_id) p.component_plain
        q.component_plain ends in
    let (correlations, _) =
      optional_member-injective correlation_start e.correlation_id f.correlation_id _ _ end_apart
        end_apart p.correlation_plain q.correlation_plain s5 in
    same_entry e f times
      (sym (level_of-level_to_string e.level)
        ∙ ap level_of levels
        ∙ level_of-level_to_string f.level)
      threads messages components correlations (none ∙ sym none')
