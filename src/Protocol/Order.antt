-- ===== src/Protocol/Order.antt =====
-- What every trade of the protocol keeps to, however it has got there.
use taptrade_core.Prelude.{
  ◌≡◌, ◌⊎◌, refl, inl, inr, Bool, true, false, ◌||◌, is_some, Option, none, some, arith,
}
use taptrade_core.Protocol.{
  Trade, Offer, Move, Step, Steps, here, next, confirms, signs, accepts, complains, decides,
  pays_out, submits, lists, withdraws, begins, moves, ends, collides, overwrites,
}

-- something of the payout or of a dispute is stored
abbrev pub settling : Trade → Bool
settling t =
    t.maker_happy
    || t.taker_happy
    || t.dispute
    || is_some t.payout
    || is_some t.sig_maker
    || is_some t.sig_taker

abbrev pub IsOrdered : Trade → Type 0
IsOrdered t = (t.confirmed ≡ true) ⊎ (settling t ≡ false)

Move-IsOrdered : {t t' : Trade} → Move t t' → IsOrdered t → IsOrdered t'
Move-IsOrdered (confirms t) o = inl refl
Move-IsOrdered (signs t true psbt free) o = o
Move-IsOrdered (signs t false psbt free) o = o
Move-IsOrdered (accepts t true c) o = inl c
Move-IsOrdered (accepts t false c) o = inl c
Move-IsOrdered (complains t true c) o = inl c
Move-IsOrdered (complains t false c) o = inl c
Move-IsOrdered (decides t w d) o = ground arith
Move-IsOrdered (pays_out t psbt m k free) o = ground arith
Move-IsOrdered (submits t true sig c free) o = inl c
Move-IsOrdered (submits t false sig c free) o = inl c

abbrev pub TradeIsOrdered : Option Trade → Type 0
TradeIsOrdered none = Unit {0}
TradeIsOrdered (some t) = IsOrdered t

Step-IsOrdered :
    {N : Type 0} {o p : Offer} → Step N o p → TradeIsOrdered o.trade → TradeIsOrdered p.trade
Step-IsOrdered (lists l) h = h
Step-IsOrdered (withdraws l) h = h
Step-IsOrdered (begins terms) h = inr refl
Step-IsOrdered (moves b m) h = Move-IsOrdered m h
Step-IsOrdered (ends b t m k) h = tt
Step-IsOrdered (collides n b c t) h = h
Step-IsOrdered (overwrites n b terms old) h = inr refl

pub Steps-IsOrdered :
    {N : Type 0} {o p : Offer} → Steps N o p → TradeIsOrdered o.trade → TradeIsOrdered p.trade
Steps-IsOrdered here h = h
Steps-IsOrdered (next r st) h = Step-IsOrdered st (Steps-IsOrdered r h)
