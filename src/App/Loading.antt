-- ===== src/App/Loading.antt =====
-- What utils/LoadingStateSpinner.tsx renders while a page waits.
use kuberpult.View.{Html}
use kuberpult.View.Accepts.{Accepts}
use kuberpult.View.Widgets.{spinner}
use kuberpult.App.{GlobalLoadingState, loading_message}

-- `LoadingStateSpinner`
unfoldable pub loading_state_spinner : {E : Type 0} → GlobalLoadingState → Html E
loading_state_spinner s = spinner (loading_message s)

pub loading_state_spinner-Accepts :
    {E : Type 0} (Q : E → Type 0) (s : GlobalLoadingState)
    → Accepts Q (loading_state_spinner {E = E} s)
unfolding loading_state_spinner spinner
loading_state_spinner-Accepts Q s = (tt, ((tt, tt), tt))
