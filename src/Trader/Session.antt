-- ===== src/Trader/Session.antt =====
-- A run of the trader's program: the requests that it has sent, the answers and the lines of
-- standard input that are still to come. The program waits where none comes any more.
use taptrade_core.Prelude.{String, Option, none, some, List, [], ◌∷◌}
use taptrade_core.Prelude.Result.{Result, ok, err, panic}
use taptrade_core.Errors.{AnyError, external}
use taptrade_core.Http.{Request}
use taptrade_core.Http.Answers.{Response}

pub data Outcome (A : Type 0) : Type 0 where
  done : A → Outcome A
  failed : AnyError → Outcome A
  panicked waiting : Outcome A

-- `none` among the answers is a request whose `send()` fails.
pub record Session : Type 0 where
  pub answers : List (Option Response)
  pub lines : List String
  pub requests : List Request  -- latest first

abbrev pub Program : Type 0 → Type 0
Program A = Session → Outcome A × Session

abbrev pub continue_with :
    {A B : Type 0} → Outcome A → Session → (A → Program B) → Outcome B × Session
continue_with (done a) s f = f a s
continue_with (failed e) s f = (failed e, s)
continue_with panicked s f = (panicked, s)
continue_with waiting s f = (waiting, s)

infixl 5 ◌>>=◌ ◌>>◌
abbrev pub ◌>>=◌ : {A B : Type 0} → Program A → (A → Program B) → Program B
◌>>=◌ m f s = let (o, s') = m s in continue_with o s' f

abbrev pub ◌>>◌ : {A B : Type 0} → Program A → Program B → Program B
m >> k = m >>= λ _. k

abbrev pub stop : {A : Type 0} → Outcome A → Program A
stop o s = (o, s)

abbrev pub outcome : {A : Type 0} → Result AnyError A → Outcome A
outcome (ok a) = done a
outcome (err e) = failed e
outcome panic = panicked

-- `e?` on a result that needs no session
abbrev pub lift : {A : Type 0} → Result AnyError A → Program A
lift r = stop (outcome r)

-- a value that may be missing, with the error of its absence
abbrev pub present : {A : Type 0} → Option A → AnyError → Program A
present (some a) e = stop (done a)
present none e = stop (failed e)

-- the session after a request, with the answers still to come
abbrev pub asked : Request → List (Option Response) → Session → Session
asked r later s = record s { answers = later; requests = r ∷ s.requests }

-- the answer to a request, when these are the answers to come
abbrev pub reply : Request → List (Option Response) → Program Response
reply r [] s = (waiting, asked r [] s)
reply r (none ∷ later) s = (failed (external "reqwest"), asked r later s)
reply r (some a ∷ later) s = (done a, asked r later s)

-- `client.post(…).json(…).send()`
abbrev pub post : Request → Program Response
post r s = reply r s.answers s

-- what a polling loop makes of an answer
pub data Verdict (A : Type 0) : Type 0 where
  again : Verdict A
  finish : Outcome A → Verdict A

-- the loop goes on, or ends in the session
abbrev pub settle : {A : Type 0} → Verdict A → Outcome A × Session → Session → Outcome A × Session
settle again next s = next
settle (finish o) next s = (o, s)

-- A loop that sends the same request until it is content with the answer.
unfoldable pub poll_on :
    {A : Type 0} → Request → (Response → Verdict A) → List (Option Response) → Program A
poll_on r judge [] s = (waiting, asked r [] s)
poll_on r judge (none ∷ later) s = (failed (external "reqwest"), asked r later s)
poll_on r judge (some a ∷ later) s =
    let next = poll_on r judge later (asked r later s) in settle (judge a) next (asked r later s)

abbrev pub poll_until : {A : Type 0} → Request → (Response → Verdict A) → Program A
poll_until r judge s = poll_on r judge s.answers s
