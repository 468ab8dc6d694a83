-- ===== src/Reporter.antt =====
-- reporter.c and reporter.h: spots are turned into URLs, queued in a ring in RAM, and uploaded in
-- order by one thread.
-- A critical section of `reporter->mutex` is one step. The text that printf makes of a floating point
-- number, the time, the environment and what the server answers are arguments.
pub mod Url
pub mod Queue
pub mod Uploader
pub mod Delay
use airspyhf_wsprd.Common.{
  ℕ, ◌*◌, ◌%◌, ◌^◌, ◌-◌, zero, suc, Bool, ltb, leb, ◌&&◌, if◌then◌else◌, Option, none, some,
}

-- `MAX_RETRY_DELAY_SECONDS`
abbrev pub max_retry_delay : ℕ
max_retry_delay = 900

-- The rounds of the loop that doubles the delay, held at the longest.
pub double_delay : ℕ → ℕ → ℕ
double_delay zero delay = delay
double_delay (suc rounds) delay =
    let doubled = delay * 2 % 2 ^ 32 in
    let rest =
      double_delay rounds (if ltb max_retry_delay doubled then max_retry_delay else doubled) in
    if ltb delay max_retry_delay then rest else delay

-- The delay that the environment configures, as strtoul reads it, if it lies in 1 to 60.
pub base_delay : Option ℕ → ℕ
base_delay none = 5
base_delay (some configured) = if leb 1 configured && leb configured 60 then configured else 5

pub retry_delay : Option ℕ → ℕ → ℕ
retry_delay configured attempts = double_delay (attempts - 1) (base_delay configured)
