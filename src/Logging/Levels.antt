-- ===== src/Logging/Levels.antt =====
-- rate-limiter/internal/logging/logger.go: the level that a logger keeps beside its handler's.
use rate_limiter.Base.{
  ◌≡◌, ◌≢◌, ◌↔◌, refl, ap, sym, ◌∙◌, Bool, true, Option, none, some, List, [], ◌∷◌, ◌++◌, arith,
  if◌then◌else◌,
}
use mathlib.Core.List.{append-nil, append_assoc}
use rate_limiter.Base.Int.{leb_ℤ}
use rate_limiter.Base.Text.{Text, codes, text_eq}
use rate_limiter.Config.Data.{LoggingConfig}
use rate_limiter.Logging.{
  Logger, Level, level_debug, level_info, level_warn, level_error, Attr, AttrValue, attr_text,
  CtxValue, string_value, other_value, Values, correlation_id_key, request_id_key, user_id_key,
  new_logger, with_field, with_fields, with_present, with_context_values, debug_enabled,
  info_enabled, warn_enabled, error_enabled, log_at,
}

-- The attribute that a value of the context adds: one for a string that is not empty.
abbrev pub present : Text → Option CtxValue → List Attr
present k none = []
present k (some other_value) = []
present k (some (string_value v)) = if text_eq v [] then [] else (k, attr_text v) ∷ []

with_present_lem :
    (k : Text) (o : Option CtxValue) (l : Logger)
    → with_present k o l ≡ record l { attrs = l.attrs ++ present k o }
unfolding with_present with_field
with_present_lem k none l = ap (λ a. record l { attrs = a }) (sym (append-nil l.attrs))
with_present_lem k (some other_value) l =
    ap (λ a. record l { attrs = a }) (sym (append-nil l.attrs))
with_present_lem k (some (string_value [])) l =
    unfold text_eq in ap (λ a. record l { attrs = a }) (sym (append-nil l.attrs))
with_present_lem k (some (string_value (c ∷ cs))) l = unfold text_eq in refl

pub with_context_values_lem :
    (ctx : Values) (l : Logger)
    → with_context_values ctx l ≡ record l {
      attrs =
          ((l.attrs ++ present (codes "correlation_id") (ctx correlation_id_key))
            ++ present (codes "request_id") (ctx request_id_key))
          ++ present (codes "user_id") (ctx user_id_key);
    }
unfolding with_context_values
with_context_values_lem ctx l =
    with_present_lem _ _ _
    ∙ ap
        (λ (m : Logger). record m {
          attrs = m.attrs ++ present (codes "user_id") (ctx user_id_key);
        })
        (with_present_lem (codes "request_id") (ctx request_id_key)
            (with_present (codes "correlation_id") (ctx correlation_id_key) l)
          ∙ ap
              (λ (m : Logger). record m {
                attrs = m.attrs ++ present (codes "request_id") (ctx request_id_key);
              })
              (with_present_lem (codes "correlation_id") (ctx correlation_id_key) l))

pub with_fields_lem :
    (fields : List Attr) (l : Logger)
    → with_fields fields l ≡ record l { attrs = l.attrs ++ fields }
unfolding with_fields with_field
with_fields_lem [] l = ap (λ a. record l { attrs = a }) (sym (append-nil l.attrs))
with_fields_lem ((k, v) ∷ fields) l =
    with_fields_lem fields (with_field k v l)
    ∙ ap (λ a. record l { attrs = a }) (append_assoc l.attrs ((k, v) ∷ []) fields)

-- A logger that NewLogger made, or one made from it by the methods that add attributes.
pub data Derived : Logger → Type 0 where
  made : (cfg : LoggingConfig) → Derived (new_logger cfg)
  by_field : (k : Text) (v : AttrValue) (l : Logger) → Derived l → Derived (with_field k v l)
  by_fields : (fields : List Attr) (l : Logger) → Derived l → Derived (with_fields fields l)
  by_context : (ctx : Values) (l : Logger) → Derived l → Derived (with_context_values ctx l)

Derived-level : {l : Logger} → Derived l → l.level ≡ l.handler.level
unfolding new_logger with_field
Derived-level (made cfg) = refl
Derived-level (by_field k v l d) = Derived-level d
Derived-level (by_fields fields l d) = rw (with_fields_lem fields l) (Derived-level d)
Derived-level (by_context ctx l d) = rw (with_context_values_lem ctx l) (Derived-level d)

log_at_iff :
    (severity : Level) (message : Text) (l : Logger) (b : Bool)
    → leb_ℤ l.handler.level severity ≡ b
    → (b ≡ true) ↔ (log_at severity message l ≢ [])
unfolding log_at
log_at_iff severity message l b e = ground arith

-- For every logger that NewLogger makes, and every one derived from it by the methods that add
-- attributes, each of the four tests is true exactly when a message of that level is written.
pub enabled_iff :
    (message : Text) {l : Logger}
    → Derived l
    → ((debug_enabled l ≡ true) ↔ (log_at level_debug message l ≢ []))
      × ((info_enabled l ≡ true) ↔ (log_at level_info message l ≢ []))
      × ((warn_enabled l ≡ true) ↔ (log_at level_warn message l ≢ []))
      × ((error_enabled l ≡ true) ↔ (log_at level_error message l ≢ []))
unfolding debug_enabled info_enabled warn_enabled error_enabled
enabled_iff message {l} d =
    let e = sym (Derived-level d) in
    (
      log_at_iff level_debug message l (leb_ℤ l.level level_debug)
          (ap (λ v. leb_ℤ v level_debug) e),
      log_at_iff level_info message l (leb_ℤ l.level level_info) (ap (λ v. leb_ℤ v level_info) e),
      log_at_iff level_warn message l (leb_ℤ l.level level_warn) (ap (λ v. leb_ℤ v level_warn) e),
      log_at_iff level_error message l (leb_ℤ l.level level_error)
          (ap (λ v. leb_ℤ v level_error) e),
    )
