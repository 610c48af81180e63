-- ===== src/Buses/Aws.antt =====
-- packages/aws-events/src/index.ts: awsEventBus.
use safecache.Base.{
  ℕ, ltb, length, Bool, true, false, ◌||◌, Option, none, some, List, [], ◌∷◌, ◌++◌, nat_eq,
  if◌then◌else◌,
}
use safecache.Text.{Text, codes}
use safecache.Result.{Result, ok, throw}
use safecache.Cache.Types.{Error, rejected}
use safecache.Cache.Exec.{Exec, pure, raise, lift, update, attempt, ◌>>=◌, ◌>>◌}
use safecache.EventShape.{Value, ParseError, parse_cache_event}
use safecache.Buses.{BusEnv, BusState, parse_failed, handler_failed, publish_failed, report, handle}

-- The texts are empty where the entry has none.
pub record AwsPutEventsResultEntry : Type 0 where
  pub error_code : Text
  pub error_message : Text

pub record AwsPutEventsResult : Type 0 where
  pub failed_entry_count : Option ℕ
  pub entries : List AwsPutEventsResultEntry

-- How the event is sent: `putEvents`, or else `send` with a command factory, where there is one; and
-- the text of a number.
pub record AwsEventsClientLike (World : Type 0) : Type 0 where
  pub put_events : Option (Text → World → Result Error (Option AwsPutEventsResult) × World)
  pub send : Option (Text → World → Result Error (Option AwsPutEventsResult) × World)
  pub number_text : ℕ → Text

abbrev pub is_set : Text → Bool
is_set [] = false
is_set (c ∷ t) = true

unfoldable pub failed_entries : List AwsPutEventsResultEntry → List AwsPutEventsResultEntry
failed_entries [] = []
failed_entries (entry ∷ entries) =
    if is_set entry.error_code then entry ∷ failed_entries entries else failed_entries entries

unfoldable pub summary_of : AwsPutEventsResultEntry → Text
summary_of entry =
    entry.error_code
    ++ (if is_set entry.error_message then codes ": " ++ entry.error_message else [])

unfoldable pub summary : List AwsPutEventsResultEntry → Text
summary [] = []
summary (entry ∷ []) = summary_of entry
summary (entry ∷ next ∷ entries) = summary_of entry ++ (codes ", " ++ summary (next ∷ entries))

unfoldable pub count_or : ℕ → Option ℕ → ℕ
count_or n none = n
count_or n (some count) = count

module _ (number_text : ℕ → Text) where
  unfoldable pub failure_message : ℕ → Text → Text
  failure_message count text =
      codes "AWS event bus putEvents failed for "
      ++ (number_text count
          ++ (codes " entr"
              ++ ((if nat_eq count 1 then codes "y" else codes "ies")
                  ++ (if is_set text then codes " (" ++ (text ++ codes ")") else []))))

  unfoldable pub failed_entries_error : Option AwsPutEventsResult → Option Error
  failed_entries_error none = none
  failed_entries_error (some result) =
      let failed = failed_entries result.entries in
      let count = count_or (length failed) result.failed_entry_count in
      if ltb 0 count || ltb 0 (length failed)
      then some (rejected (failure_message count (summary failed)))
      else none

module _ {World : Type 0} (env : BusEnv World) (client : AwsEventsClientLike World) where
  unfoldable pub send_by :
      Option (Text → World → Result Error (Option AwsPutEventsResult) × World)
      → Text
      → Exec (BusState World) (Option AwsPutEventsResult)
  send_by none detail =
      raise (rejected (codes "AWS event bus requires putEvents or send with a command factory"))
  send_by (some send) detail = do
    r ← update (λ s. let (r, w) = send detail s.world in (r, record s { world = w }))
    lift r

  unfoldable pub put : Text → Exec (BusState World) (Option AwsPutEventsResult)
  put detail = elim client.put_events [
    | some put_events ↦ send_by (some put_events) detail
    | none ↦ send_by client.send detail
  ]

  unfoldable pub raise_failure : Option Error → Exec (BusState World) (Unit {0})
  raise_failure none = pure tt
  raise_failure (some e) = raise e

  unfoldable pub send_event : Value → Exec (BusState World) (Unit {0})
  send_event event = do
    response ← put (env.stringify event)
    raise_failure (failed_entries_error client.number_text response)

  -- `handlePublishError`
  unfoldable pub settle_publish : Bool → Result Error (Unit {0}) → Exec (BusState World) (Unit {0})
  settle_publish propagate (ok _) = pure tt
  settle_publish propagate (throw e) = do
    report env (publish_failed e)
    if propagate then raise e else pure tt

  unfoldable pub publish : Bool → Value → Exec (BusState World) (Unit {0})
  publish propagate event = do
    settled ← attempt (send_event event)
    settle_publish propagate settled

module _ {World : Type 0} (env : BusEnv World) where
  unfoldable pub settle_handler : Result Error (Unit {0}) → Exec (BusState World) (Unit {0})
  settle_handler (ok _) = pure tt
  settle_handler (throw e) = report env (handler_failed e)

  unfoldable pub receive : Result ParseError Value → Exec (BusState World) (Unit {0})
  receive (throw e) = report env (parse_failed e)
  receive (ok event) = do settled ← attempt (handle env event); settle_handler settled

  -- what the bridge delivers, as a value or as a text
  unfoldable pub bridged : Value → Exec (BusState World) (Unit {0})
  bridged detail = receive (parse_cache_event env.json_parse detail)
