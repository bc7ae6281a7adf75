-- ===== src/Model/Enums.antt =====
-- The enumerations of the program (backend/app/models/enums.py).
pub data ContactStatus : Type 0 where
  pending dialing in_conversation disconnected retry_scheduled reconnecting completed
        completed_partial closed needs_review :
      ContactStatus

pub data CampaignStatus : Type 0 where
  draft active paused completed : CampaignStatus

pub data CallAttemptState : Type 0 where
  initiated connected failed_to_connect dropped_mid_call ended_normally : CallAttemptState

pub data NeverConnectedFailureReason : Type 0 where
  no_answer busy invalid_number rejected network_error provider_error : NeverConnectedFailureReason

pub data MidCallDisconnectReason : Type 0 where
  technical_issue network_problem provider_error ai_error unknown customer_hangup :
      MidCallDisconnectReason

pub data AnalysisStatus : Type 0 where
  pending processing completed failed retry_wait skipped : AnalysisStatus
